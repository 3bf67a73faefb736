-- ===== src/Transport/Registry/Counting.antt =====
-- The count of the registry is the number of the sockets that it holds.
use transcribe_service.Prelude.{
  ℕ, ◌+◌, ◌-◌, ◌≤◌, String, ◌≡◌, refl, Bool, some, List, [], ◌∷◌, length, length-append, arith,
  eq_refl, Option-cases, inl, inr, ◌∷◌,
}
use transcribe_service.Transport.Registry.{
  pos, Sockets, sub, add_one, sockets_of, append_socket, put, pop, others, ConnectionRegistry, add,
  remove_all, remove, close_all, pop_each, store_or_pop,
}

abbrev pub total : Sockets → ℕ
total [] = 0
total ((cid, ws) ∷ d) = length ws + total d

-- The registry's invariant.
abbrev pub IsCounted : ConnectionRegistry → Type 0
IsCounted r = r.active_count ≡ pos (total r.connections)

total-append_socket :
    (cid : String) (w : ℕ) (d : Sockets) → total (append_socket cid w d) ≡ total d + 1
unfolding append_socket
total-append_socket cid w [] = refl
total-append_socket cid w ((k, ws) ∷ d) =
    ground (arith, length-append ws (w ∷ []), total-append_socket cid w d)

total-pop :
    (cid : String) (xs : List ℕ) (d : Sockets)
    → sockets_of cid d ≡ some xs
    → total (pop cid d) + length xs ≡ total d
unfolding pop sockets_of
total-pop cid xs [] h = ground arith
total-pop cid xs ((k, ws) ∷ d) h = ground (arith, total-pop cid xs d)

total-put :
    (cid : String) (xs ys : List ℕ) (d : Sockets)
    → sockets_of cid d ≡ some xs
    → total (put cid ys d) + length xs ≡ total d + length ys
unfolding put sockets_of
total-put cid xs ys [] h = ground arith
total-put cid xs ys ((k, ws) ∷ d) h = ground (arith, total-put cid xs ys d)

length-others : (w : ℕ) (xs : List ℕ) → length (others w xs) ≤ length xs
unfolding others
length-others w [] = omega arith
length-others w (x ∷ xs) = ground (arith, length-others w xs)

pop_each_self : (d : Sockets) → pop_each d d ≡ []
unfolding pop_each pop
pop_each_self [] = refl
pop_each_self ((cid, ws) ∷ d) = rw (eq_refl cid) (pop_each_self d)

pub add-IsCounted :
    (cid : String) (w : ℕ) (r : ConnectionRegistry) → IsCounted r → IsCounted (add cid w r)
unfolding add add_one
add-IsCounted cid w r h = rw (h, total-append_socket cid w r.connections) refl

sub-pos : (m n : ℕ) → n ≤ m → sub (pos m) n ≡ pos (m - n)
unfolding sub
sub-pos m n h = ground arith

remove_all-IsCounted :
    (cid : String) (r : ConnectionRegistry) → IsCounted r → IsCounted (remove_all cid r)
unfolding remove_all
remove_all-IsCounted cid r h = elim (Option-cases (sockets_of cid r.connections)) [
  | inl e ↦ rw e h
  | inr (ws, e) ↦
      rw (e, h)
        (let t = total-pop cid ws r.connections e in
          let m : total r.connections - length ws ≡ total (pop cid r.connections) = omega arith in
          rw (sub-pos (total r.connections) (length ws) (omega arith), m) refl)
]

total-store_or_pop :
    (cid : String) (xs ys : List ℕ) (d : Sockets)
    → sockets_of cid d ≡ some xs
    → total (store_or_pop cid ys d) + length xs ≡ total d + length ys
total-store_or_pop cid xs [] d h = let t = total-pop cid xs d h in omega arith
total-store_or_pop cid xs (y ∷ ys) d h = total-put cid xs (y ∷ ys) d h

sub-store_or_pop :
    (cid : String) (xs ys : List ℕ) (d : Sockets)
    → sockets_of cid d ≡ some xs
    → length ys ≤ length xs
    → sub (pos (total d)) (length xs - length ys) ≡ pos (total (store_or_pop cid ys d))
sub-store_or_pop cid xs ys d h le =
    let t = total-store_or_pop cid xs ys d h in
    let p = total-pop cid xs d h in
    let e : total d - (length xs - length ys) ≡ total (store_or_pop cid ys d) = omega arith in
    rw (sub-pos (total d) (length xs - length ys) (omega arith), e) refl

by_sockets :
    (cid : String) (w : ℕ) (r : ConnectionRegistry) (ws : List ℕ)
    → sockets_of cid r.connections ≡ some ws
    → IsCounted r
    → IsCounted (remove cid w r)
unfolding remove
by_sockets cid w r [] e h = rw e h
by_sockets cid w r (x ∷ xs) e h =
    rw (e, h)
      (sub-store_or_pop cid (x ∷ xs) (others w (x ∷ xs)) r.connections e (length-others w (x ∷ xs)))

pub remove-IsCounted :
    (cid : String) (w : ℕ) (r : ConnectionRegistry) → IsCounted r → IsCounted (remove cid w r)
unfolding remove
remove-IsCounted cid w r h = elim (Option-cases (sockets_of cid r.connections)) [
  | inl e ↦ rw e h
  | inr (ws, e) ↦ by_sockets cid w r ws e h
]

close_all-IsCounted :
    (connected : ℕ → Bool) (r : ConnectionRegistry) → IsCounted (close_all connected r).1
unfolding close_all
close_all-IsCounted connected r = rw (pop_each_self r.connections) refl

-- The invariant of the registry: if its count is the number of the sockets that it holds, then so it is
-- after `add`, after `remove` of one socket, registered or not, after `remove` of a conversation, and
-- after `close_all`.
pub registry-IsCounted :
    (cid : String) (w : ℕ) (connected : ℕ → Bool) (r : ConnectionRegistry)
    → IsCounted r
    → IsCounted (add cid w r)
      × IsCounted (remove cid w r)
      × IsCounted (remove_all cid r)
      × IsCounted (close_all connected r).1
registry-IsCounted cid w connected r h = (
  add-IsCounted cid w r h,
  remove-IsCounted cid w r h,
  remove_all-IsCounted cid r h,
  close_all-IsCounted connected r,
)

-- ===== src/Transport/Registry/Identity.antt =====
-- A socket that comes and goes leaves the registry as it was.
use transcribe_service.Prelude.{
  ℕ, String, ◌≡◌, Option, none, some, List, [], ◌∷◌, ◌++◌, arith, eq_refl, ◌⊎◌, inl, inr, ◌∙◌, sym,
  ap,
}
use transcribe_service.Transport.Registry.{
  pos, Sockets, sockets_of, append_socket, put, pop, others, ConnectionRegistry, add, remove,
}
use transcribe_service.Transport.Registry.Counting.{
  total, IsCounted, add-IsCounted, remove-IsCounted,
}

others-append : (w : ℕ) (xs : List ℕ) → others w (xs ++ w ∷ []) ≡ others w xs
unfolding others
others-append w [] = ground arith
others-append w (x ∷ xs) = ground (arith, others-append w xs)

abbrev or_empty : Option (List ℕ) → List ℕ
or_empty none = []
or_empty (some xs) = xs

sockets_of-append_socket :
    (cid : String) (w : ℕ) (d : Sockets)
    → sockets_of cid (append_socket cid w d) ≡ some (or_empty (sockets_of cid d) ++ w ∷ [])
unfolding sockets_of append_socket
sockets_of-append_socket cid w [] = ground (arith, eq_refl cid)
sockets_of-append_socket cid w ((k, ws) ∷ d) = ground (arith, sockets_of-append_socket cid w d)

pop-append_socket :
    (cid : String) (w : ℕ) (d : Sockets)
    → sockets_of cid d ≡ none
    → pop cid (append_socket cid w d) ≡ d
unfolding sockets_of append_socket pop
pop-append_socket cid w [] h = ground (arith, eq_refl cid)
pop-append_socket cid w ((k, ws) ∷ d) h = ground (arith, pop-append_socket cid w d)

put-append_socket :
    (cid : String) (w : ℕ) (xs : List ℕ) (d : Sockets)
    → sockets_of cid d ≡ some xs
    → put cid xs (append_socket cid w d) ≡ d
unfolding sockets_of append_socket put
put-append_socket cid w xs [] h = ground arith
put-append_socket cid w xs ((k, ws) ∷ d) h = ground (arith, put-append_socket cid w xs d)

-- The socket is not yet registered, and a conversation that is registered has a socket.
abbrev pub IsFresh : String → ℕ → ConnectionRegistry → Type 0
IsFresh cid w r =
    (sockets_of cid r.connections ≡ none)
    ⊎ ((x : ℕ) × (xs : List ℕ) × (sockets_of cid r.connections ≡ some (x ∷ xs))
        × (others w (x ∷ xs) ≡ x ∷ xs))

connections_back :
    (cid : String) (w : ℕ) (r : ConnectionRegistry)
    → IsFresh cid w r
    → (remove cid w (add cid w r)).connections ≡ r.connections
unfolding remove add
connections_back cid w r (inl e) =
    rw (sockets_of-append_socket cid w r.connections, e)
      (rw (others-append w []) (pop-append_socket cid w r.connections e))
connections_back cid w r (inr (x, xs, e, same)) =
    rw (sockets_of-append_socket cid w r.connections, e)
      (rw (others-append w (x ∷ xs), same) (put-append_socket cid w (x ∷ xs) r.connections e))

-- If the registry is counted, and the socket is not registered for the conversation, whose list is
-- not empty if there is one, then `add` followed by `remove` of the same socket restores the
-- connections, their order and the count.
pub remove-add :
    (cid : String) (w : ℕ) (r : ConnectionRegistry)
    → IsCounted r
    → IsFresh cid w r
    → remove cid w (add cid w r) ≡ r
remove-add cid w r h fresh =
    let e = connections_back cid w r fresh in
    let c = remove-IsCounted cid w (add cid w r) (add-IsCounted cid w r h) in
    let n = c ∙ ap (λ d. pos (total d)) e ∙ sym h in
    λ i. record { connections = e i; active_count = n i }

-- ===== src/Transport/Registry.antt =====
-- transport/registry.py: the sockets of each conversation and the count of all of them. A socket is a
-- number, which stands for the identity that `is` compares. The dictionary is a list of its items in
-- the order of insertion.
pub mod Counting
pub mod Identity
use transcribe_service.Prelude.{
  ℕ, zero, suc, ◌+◌, ◌-◌, String, Bool, true, false, not, Option, none, some, List, [], ◌∷◌, ◌++◌,
  eqb, leb, ltb, length, ◌==◌, if◌then◌else◌,
}

-- Python's `int`, since the count may fall below 0.
pub data ℤ : Type 0 where
  pos negsuc : ℕ → ℤ

unfoldable pub sub : ℤ → ℕ → ℤ
sub (pos m) n = if leb n m then pos (m - n) else negsuc (n - suc m)
sub (negsuc m) n = negsuc (m + n)

unfoldable pub add_one : ℤ → ℤ
add_one (pos m) = pos (m + 1)
add_one (negsuc zero) = pos 0
add_one (negsuc (suc m)) = negsuc m

-- `a >= n`
abbrev pub at_least : ℤ → ℕ → Bool
at_least (pos m) n = leb n m
at_least (negsuc m) n = false

abbrev pub Sockets : Type 0
Sockets = List (String × List ℕ)

-- `_connections.get(cid)`
unfoldable pub sockets_of : String → Sockets → Option (List ℕ)
sockets_of cid [] = none
sockets_of cid ((k, ws) ∷ d) = if k == cid then some ws else sockets_of cid d

-- `_connections.setdefault(cid, []).append(ws)`
unfoldable pub append_socket : String → ℕ → Sockets → Sockets
append_socket cid w [] = (cid, w ∷ []) ∷ []
append_socket cid w ((k, ws) ∷ d) =
    if k == cid then (k, ws ++ w ∷ []) ∷ d else (k, ws) ∷ append_socket cid w d

-- `_connections[cid] = ws`, for a key that is there
unfoldable pub put : String → List ℕ → Sockets → Sockets
put cid xs [] = (cid, xs) ∷ []
put cid xs ((k, ws) ∷ d) = if k == cid then (k, xs) ∷ d else (k, ws) ∷ put cid xs d

-- `_connections.pop(cid, None)`
unfoldable pub pop : String → Sockets → Sockets
pop cid [] = []
pop cid ((k, ws) ∷ d) = if k == cid then d else (k, ws) ∷ pop cid d

-- `[registered_ws for registered_ws in sockets if registered_ws is not ws]`
unfoldable pub others : ℕ → List ℕ → List ℕ
others w [] = []
others w (x ∷ xs) = if eqb x w then others w xs else x ∷ others w xs

pub record ConnectionRegistry : Type 0 where
  pub connections : Sockets
  pub active_count : ℤ

unfoldable pub add : String → ℕ → ConnectionRegistry → ConnectionRegistry
unfolding append_socket add_one
add cid w r = record {
  connections = append_socket cid w r.connections;
  active_count = add_one r.active_count;
}

abbrev without_conversation : String → Option (List ℕ) → ConnectionRegistry → ConnectionRegistry
without_conversation cid none r = r
without_conversation cid (some ws) r = record {
  connections = pop cid r.connections;
  active_count = sub r.active_count (length ws);
}

-- `remove(conversation_id)`
unfoldable pub remove_all : String → ConnectionRegistry → ConnectionRegistry
unfolding pop sub sockets_of
remove_all cid r = without_conversation cid (sockets_of cid r.connections) r

abbrev pub store_or_pop : String → List ℕ → Sockets → Sockets
store_or_pop cid [] d = pop cid d
store_or_pop cid (x ∷ xs) d = put cid (x ∷ xs) d

abbrev without_socket : String → ℕ → Option (List ℕ) → ConnectionRegistry → ConnectionRegistry
without_socket cid w none r = r
without_socket cid w (some []) r = r
without_socket cid w (some (x ∷ xs)) r = record {
  connections = store_or_pop cid (others w (x ∷ xs)) r.connections;
  active_count = sub r.active_count (length (x ∷ xs) - length (others w (x ∷ xs)));
}

-- `remove(conversation_id, ws)`
unfoldable pub remove : String → ℕ → ConnectionRegistry → ConnectionRegistry
unfolding others put pop sub sockets_of
remove cid w r = without_socket cid w (sockets_of cid r.connections) r

pop_each : Sockets → Sockets → Sockets
unfolding pop
pop_each [] d = d
pop_each ((cid, ws) ∷ items) d = pop_each items (pop cid d)

abbrev connected_of : (ℕ → Bool) → List ℕ → List ℕ
connected_of connected [] = []
connected_of connected (w ∷ ws) =
    if connected w then w ∷ connected_of connected ws else connected_of connected ws

abbrev closed_by : (ℕ → Bool) → Sockets → List ℕ
closed_by connected [] = []
closed_by connected ((cid, ws) ∷ items) = connected_of connected ws ++ closed_by connected items

-- The sockets that are sent a close frame, in order, and the registry afterwards. A close that fails
-- is ignored. No other task runs in between here.
unfoldable pub close_all : (ℕ → Bool) → ConnectionRegistry → List ℕ × ConnectionRegistry
unfolding pop_each
close_all connected r = (
  closed_by connected r.connections,
  record { connections = pop_each r.connections r.connections; active_count = pos 0 },
)

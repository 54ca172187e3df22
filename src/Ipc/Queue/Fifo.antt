-- ===== src/Ipc/Queue/Fifo.antt =====
-- What a message queue promises: a bounded queue of messages, first in, first out.
use orbit_rtos.Base.{ℕ, leb, if◌then◌else◌, Option, none, some, List, [], ◌∷◌, ◌++◌, length}
use orbit_rtos.Kernel.{Status, success, failure}

-- A message is its bytes, the oldest message comes first, and a full queue takes no more.
unfoldable pub push : (capacity : ℕ) → List (List ℕ) → List ℕ → List (List ℕ) × Status
push capacity l m = if leb capacity (length l) then (l, failure) else (l ++ m ∷ [], success)

unfoldable pub pop : List (List ℕ) → List (List ℕ) × Option (List ℕ)
pop [] = ([], none)
pop (m ∷ l) = (l, some m)

unfoldable pub peek : List (List ℕ) → Option (List ℕ)
peek [] = none
peek (m ∷ l) = some m

-- What clients ask for, and what they get to see.
pub data Request : Type 0 where
  send : List ℕ → Request
  receive look : Request

pub data Reply : Type 0 where
  sent : Status → Reply
  got : Option (List ℕ) → Reply

unfoldable pub answer : (capacity : ℕ) → Request → List (List ℕ) → List (List ℕ) × Reply
unfolding push pop peek
answer capacity (send m) l = let (l', r) = push capacity l m in (l', sent r)
answer capacity receive l = let (l', o) = pop l in (l', got o)
answer capacity look l = (l, got (peek l))

unfoldable pub answers : (capacity : ℕ) → List Request → List (List ℕ) → List Reply
unfolding answer
answers capacity [] l = []
answers capacity (x ∷ xs) l = let (l', r) = answer capacity x l in r ∷ answers capacity xs l'

-- ===== src/Conn/Calls.antt =====
-- What a connection promises of its calls, whatever the order in which its goroutines act: an abstract
-- machine that knows of each call only whether it runs.
use ttrpc.Prelude.{
  ℕ, ◌+◌, ◌%◌, ◌≤◌, ◌≡◌, refl, subst, inl, inr, Bool, true, false, ◌&&◌, Option, none, some, List,
  [], ◌∷◌, arith, ltb, leb, if◌then◌else◌, ◌==◌, nat_eq, string_eq, Option-cases,
}
use mathlib.Core.Option.{some-injective}
use ttrpc.Prelude.Sets.{contains, remove, contains-remove}

-- The last identifier that was used, and the calls that run.
pub record Calls : Type 0 where
  pub last : ℕ
  pub running : List ℕ

-- A call begins; an identifier is used up with no call; the stream of a call sends a message, which it
-- may do for good; a running call ends.
pub data Move : Type 0 where
  began used spoke ended : ℕ → Move

unfoldable pub move : Move → Calls → Option Calls
move (began id) a =
    if ltb a.last id && (id % 2 == 1)
    then some (record { last = id; running = id ∷ a.running })
    else none
move (used n) a = if leb a.last n then some (record { last = n; running = a.running }) else none
move (spoke id) a = if leb id a.last && (id % 2 == 1) then some a else none
move (ended id) a =
    if contains id a.running
    then some (record { last = a.last; running = remove id a.running })
    else none

unfoldable pub moves : List Move → Calls → Option Calls
moves [] a = some a
moves (m ∷ ms) a = elim (move m a) [ none ↦ none | some b ↦ moves ms b ]

abbrev pub no_calls : Calls
no_calls = record { last = 0; running = [] }

-- Whether a move is the end of a call, or the beginning or the end of it
abbrev pub is_end : ℕ → Move → Bool
is_end id (ended j) = j == id
is_end id _ = false

abbrev pub is_begin : ℕ → Move → Bool
is_begin id (began j) = j == id
is_begin id _ = false

abbrev is_answer : ℕ → Move → Bool
is_answer id (ended j) = j == id
is_answer id (began j) = j == id
is_answer id _ = false

unfoldable pub count_moves : (Move → Bool) → List Move → ℕ
count_moves f [] = 0
count_moves f (m ∷ ms) = (if f m then 1 else 0) + count_moves f ms

-- Only calls with a used identifier run.
abbrev pub Bounded : Calls → Type 0
Bounded a = (id : ℕ) → contains id a.running ≡ true → id ≤ a.last

-- How often a call can still end.
abbrev ends_left : ℕ → Calls → ℕ
ends_left id a = if contains id a.running then 1 else if leb id a.last then 0 else 1

move-ends_left :
    (m : Move) (a b : Calls) (id : ℕ)
    → Bounded a
    → move m a ≡ some b
    → Bounded b × ((if is_end id m then 1 else 0) + ends_left id b ≤ ends_left id a)
unfolding move contains
move-ends_left (began k) a b id h e = (λ j q. ground (arith, h j), ground (arith, h id))
move-ends_left (used k) a b id h e = (λ j q. ground (arith, h j), ground (arith, h id))
move-ends_left (spoke k) a b id h e = (λ j q. ground (arith, h j), ground (arith, h id))
move-ends_left (ended k) a b id h e = (
  λ j q. ground (arith, h j, contains-remove k j a.running),
  ground (arith, h id, contains-remove k id a.running),
)

-- Only identifiers that were used run, at the beginning and always.
pub no_calls-Bounded : Bounded no_calls
unfolding contains
no_calls-Bounded id h = cc

-- How many calls of an identifier run
abbrev pub runs : ℕ → Calls → ℕ
runs id a = if contains id a.running then 1 else 0

move-balance :
    (m : Move) (a b : Calls) (id : ℕ)
    → Bounded a
    → move m a ≡ some b
    → runs id a + (if is_begin id m then 1 else 0) ≡ runs id b + (if is_end id m then 1 else 0)
unfolding move contains
move-balance (began k) a b id h e = ground (arith, h id)
move-balance (used k) a b id h e = ground arith
move-balance (spoke k) a b id h e = ground arith
move-balance (ended k) a b id h e = ground (arith, contains-remove k id a.running)

-- Whatever began has ended or runs.
moves-balance :
    (ms : List Move) (a b : Calls) (id : ℕ)
    → Bounded a
    → moves ms a ≡ some b
    → runs id a + count_moves (is_begin id) ms ≡ runs id b + count_moves (is_end id) ms
unfolding moves count_moves
moves-balance [] a b id h e = rw (some-injective a b e) refl
moves-balance (m ∷ ms) a b id h e = elim (Option-cases (move m a)) [
  | inl q ↦ cc (rw (q, moves) at e)
  | inr (c, q) ↦
      let (h', left) = move-ends_left m a c id h q in
      omega (arith, move-balance m a c id h q, moves-balance ms c b id h' (rw (q, moves) at e))
]

-- How often a call can still begin.
move-begins :
    (m : Move) (a b : Calls) (id : ℕ)
    → move m a ≡ some b
    → (if is_begin id m then 1 else 0) + (if leb id b.last then 0 else 1)
      ≤ (if leb id a.last then 0 else 1)
unfolding move
move-begins (began k) a b id e = ground arith
move-begins (used k) a b id e = ground arith
move-begins (spoke k) a b id e = ground arith
move-begins (ended k) a b id e = ground arith

moves-begins :
    (ms : List Move) (a b : Calls) (id : ℕ)
    → moves ms a ≡ some b
    → count_moves (is_begin id) ms ≤ (if leb id a.last then 0 else 1)
unfolding moves count_moves
moves-begins [] a b id e = omega arith
moves-begins (m ∷ ms) a b id e = elim (Option-cases (move m a)) [
  | inl q ↦ cc (rw (q, moves) at e)
  | inr (c, q) ↦ omega (arith, move-begins m a c id q, moves-begins ms c b id (rw (q, moves) at e))
]

-- From the start, a call of an identifier begins at most once, and if it has begun it runs or has ended.
pub begins_once :
    (ms : List Move) (b : Calls) (id : ℕ)
    → moves ms no_calls ≡ some b
    → (count_moves (is_begin id) ms ≤ 1)
      × (count_moves (is_begin id) ms ≡ count_moves (is_end id) ms + runs id b)
unfolding contains
begins_once ms b id e = (
  ground (arith, moves-begins ms no_calls b id e),
  ground (arith, moves-balance ms no_calls b id no_calls-Bounded e),
)

-- A call that is over: its identifier was used, and it does not run.
abbrev IsOver : ℕ → Calls → Type 0
IsOver id a = (contains id a.running ≡ false) × (id ≤ a.last)

move-IsOver :
    (m : Move) (a b : Calls) (id : ℕ)
    → IsOver id a
    → move m a ≡ some b
    → IsOver id b × (is_answer id m ≡ false)
unfolding move contains
move-IsOver (began k) a b id h e = ground arith
move-IsOver (used k) a b id h e = ground arith
move-IsOver (spoke k) a b id h e = ground arith
move-IsOver (ended k) a b id h e = ground (arith, contains-remove k id a.running)

-- A call that is over does not end again, and its identifier begins no other.
moves-IsOver :
    (ms : List Move) (a b : Calls) (id : ℕ)
    → IsOver id a
    → moves ms a ≡ some b
    → (count_moves (is_answer id) ms ≡ 0) × IsOver id b
unfolding moves count_moves
moves-IsOver [] a b id h e = (refl, subst (IsOver id) (some-injective a b e) h)
moves-IsOver (m ∷ ms) a b id h e = elim (Option-cases (move m a)) [
  | inl q ↦ cc (rw (q, moves) at e)
  | inr (c, q) ↦
      let (h', quiet) = move-IsOver m a c id h q in
      let (none_left, over) = moves-IsOver ms c b id h' (rw (q, moves) at e) in
      (rw quiet (omega (arith, none_left)), over)
]

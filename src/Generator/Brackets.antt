-- ===== src/Generator/Brackets.antt =====
-- The brackets of a generated file.
use ttrpc.Prelude.{
  true, not, ◌&&◌, false, arith, ℕ, String, ◌≡◌, refl, ◌∙◌, inl, inr, Bool, ◌||◌, Option, none,
  some, List, [], ◌∷◌, ◌++◌, if◌then◌else◌, ◌==◌, nat_eq, string_eq, Option-cases,
}
use Prim.Native.Char.{code}
use ttrpc.Generator.{GoIdent, Piece, text, name, lowered, ident, Line, Method, each, unless_empty}

infixl 5 ◌>>=◌
abbrev pub ◌>>=◌ : {A B : Type 0} → Option A → (A → Option B) → Option B
none >>= f = none
some a >>= f = f a

-- A closing bracket must be that of the innermost open one.
abbrev pub closing : ℕ → List ℕ → Option (List ℕ)
closing c [] = none
closing c (d ∷ open_ones) = if c == d then some open_ones else none

-- The closing brackets that are due after one more character
abbrev pub after_char : List ℕ → ℕ → Option (List ℕ)
after_char due c =
    if c == b'{'
    then some (b'}' ∷ due)
    else if c == b'('
    then some (b')' ∷ due)
    else if c == b'['
    then some (b']' ∷ due)
    else if c == b'}' || c == b')' || c == b']'
    then closing c due
    else some due

abbrev pub after_text : List ℕ → String → Option (List ℕ)
after_text due String.[] = some due
after_text due (String.◌∷◌ c s) = after_char due (code c) >>= λ d. after_text d s

-- Names and identifiers are skipped.
abbrev pub after_line : List ℕ → Line → Option (List ℕ)
after_line due [] = some due
after_line due (text t ∷ r) = after_text due t >>= λ d. after_line d r
after_line due (name n ∷ r) = after_line due r
after_line due (lowered n ∷ r) = after_line due r
after_line due (ident i ∷ r) = after_line due r

unfoldable pub after_lines : List ℕ → List Line → Option (List ℕ)
after_lines due [] = some due
after_lines due (l ∷ ls) = after_line due l >>= λ d. after_lines d ls

-- Whether a text has no bracket
abbrev is_bracket : ℕ → Bool
is_bracket c = c == b'{' || c == b'(' || c == b'[' || c == b'}' || c == b')' || c == b']'

abbrev pub is_plain : String → Bool
is_plain String.[] = true
is_plain (String.◌∷◌ c s) = not (is_bracket (code c)) && is_plain s

-- The characters of a file, with what `strings.ToLower` makes of a name and `QualifiedGoIdent` of an
-- identifier
module _ (lower : String → String) (qualified : GoIdent → String) where
  abbrev pub characters : Piece → String
  characters (text t) = t
  characters (name n) = n
  characters (lowered n) = lower n
  characters (ident i) = qualified i

  -- Names and identifiers have no bracket as they are printed.
  abbrev piece_plain : Piece → Bool
  piece_plain (text t) = true
  piece_plain x = is_plain (characters x)

  abbrev line_plain : Line → Bool
  line_plain [] = true
  line_plain (x ∷ r) = piece_plain x && line_plain r

  abbrev pub names_plain : List Line → Bool
  names_plain [] = true
  names_plain (l ∷ ls) = line_plain l && names_plain ls

  abbrev after_pieces : List ℕ → Line → Option (List ℕ)
  after_pieces due [] = some due
  after_pieces due (x ∷ r) = after_text due (characters x) >>= λ d. after_pieces d r

  -- The closing brackets that are due after the text of some lines
  abbrev pub after_printed : List ℕ → List Line → Option (List ℕ)
  after_printed due [] = some due
  after_printed due (l ∷ ls) = after_pieces due l >>= λ d. after_printed d ls

both : (a b : Bool) → a && b ≡ true → (a ≡ true) × (b ≡ true)
both true b e = (refl, e)
both false b e = cc

after_plain : (due : List ℕ) (s : String) → is_plain s ≡ true → after_text due s ≡ some due
after_plain due String.[] h = refl
after_plain due (String.◌∷◌ c s) e =
    let (n, h) = both (not (is_bracket (code c))) (is_plain s) e in
    let one : after_char due (code c) ≡ some due = ground (arith, n) in rw one (after_plain due s h)

module _ (lower : String → String) (qualified : GoIdent → String) where
  after_pieces-line :
      (due : List ℕ) (l : Line)
      → line_plain lower qualified l ≡ true
      → after_pieces lower qualified due l ≡ after_line due l
  after_pieces-line due [] h = refl
  after_pieces-line due (text t ∷ r) h = elim (Option-cases (after_text due t)) [
    | inl e ↦ rw e refl
    | inr (d, e) ↦ rw e (after_pieces-line d r h)
  ]
  after_pieces-line due (name n ∷ r) e =
      let (u, h) = both (is_plain n) (line_plain lower qualified r) e in
      rw (after_plain due n u) (after_pieces-line due r h)
  after_pieces-line due (lowered n ∷ r) e =
      let (u, h) = both (is_plain (lower n)) (line_plain lower qualified r) e in
      rw (after_plain due (lower n) u) (after_pieces-line due r h)
  after_pieces-line due (ident i ∷ r) e =
      let (u, h) = both (is_plain (qualified i)) (line_plain lower qualified r) e in
      rw (after_plain due (qualified i) u) (after_pieces-line due r h)

  left :
      (l : Line) (ls : List Line)
      → names_plain lower qualified (l ∷ ls) ≡ true
      → line_plain lower qualified l ≡ true
  left l ls e = (both (line_plain lower qualified l) (names_plain lower qualified ls) e).0

  right :
      (l : Line) (ls : List Line)
      → names_plain lower qualified (l ∷ ls) ≡ true
      → names_plain lower qualified ls ≡ true
  right l ls e = (both (line_plain lower qualified l) (names_plain lower qualified ls) e).1

  pub after_printed-lines :
      (due : List ℕ) (ls : List Line)
      → names_plain lower qualified ls ≡ true
      → after_printed lower qualified due ls ≡ after_lines due ls
  unfolding after_lines
  after_printed-lines due [] h = refl
  after_printed-lines due (l ∷ ls) p = elim (Option-cases (after_line due l)) [
    | inl e ↦ rw (after_pieces-line due l (left l ls p), e) refl
    | inr (d, e) ↦
        rw (after_pieces-line due l (left l ls p), e) (after_printed-lines d ls (right l ls p))
  ]

-- The brackets of these lines match one another, whatever surrounds them.
abbrev pub Matched : List Line → Type 0
Matched ls = (due : List ℕ) → after_lines due ls ≡ some due

after_lines-append :
    (due : List ℕ) (xs ys : List Line)
    → after_lines due (xs ++ ys) ≡ (after_lines due xs >>= λ d. after_lines d ys)
unfolding after_lines
after_lines-append due [] ys = refl
after_lines-append due (l ∷ ls) ys = elim (Option-cases (after_line due l)) [
  | inl e ↦ rw e refl
  | inr (d, e) ↦ rw e (after_lines-append d ls ys)
]

pub Matched-append : (xs ys : List Line) → Matched xs → Matched ys → Matched (xs ++ ys)
Matched-append xs ys p q due = after_lines-append due xs ys ∙ rw (p due) (q due)

pub Matched-each :
    (f : Method → List Line) (ms : List Method)
    → ((m : Method) → Matched (f m))
    → Matched (each f ms)
unfolding each after_lines
Matched-each f [] p due = refl
Matched-each f (m ∷ ms) p due = Matched-append (f m) (each f ms) (p m) (Matched-each f ms p) due

pub Matched-unless_empty :
    (ms : List Method) (ls : List Line) → Matched ls → Matched (unless_empty ms ls)
unfolding unless_empty after_lines
Matched-unless_empty [] ls p due = refl
Matched-unless_empty (m ∷ ms) ls p due = p due

-- Matched lines, and then lines that close brackets
pub closed_behind :
    (ys zs : List Line) (bs : List ℕ)
    → Matched ys
    → ((due : List ℕ) → after_lines (bs ++ due) zs ≡ some due)
    → (due : List ℕ) → after_lines (bs ++ due) (ys ++ zs) ≡ some due
closed_behind ys zs bs q r due = after_lines-append (bs ++ due) ys zs ∙ rw (q (bs ++ due)) (r due)

-- A method by its flags
abbrev pub with_flags : Method → Bool → Bool → Method
with_flags m c s = record m { streaming_client = c; streaming_server = s }

pub by_flags :
    (f : Method → List Line)
    → ((m : Method) (c d : Bool) → Matched (f (with_flags m c d)))
    → (m : Method) → Matched (f m)
by_flags f p m = p m m.streaming_client m.streaming_server

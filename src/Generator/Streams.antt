-- ===== src/Generator/Streams.antt =====
-- What a reader of the generated source finds: what the server registers and what the client uses.
use ttrpc.Prelude.{
  sym, String, Bool, true, false, ◌&&◌, Option, none, some, List, [], ◌∷◌, ◌++◌, if◌then◌else◌,
  ◌==◌, nat_eq, string_eq, ◌≡◌, refl, ◌∙◌, ap, append_assoc, map,
}
use ttrpc.Generator.{text, name, Line, Method, each, unless_empty}

-- A service's name and a unary method of it, or a stream with its two flags
pub data Entry : Type 0 where
  unary : String → String → Entry
  stream : String → String → Bool → Bool → Entry

-- `srv.RegisterService("…", …`
abbrev registers_service : Line → Option String
registers_service (text a ∷ name n ∷ r) = if a == "srv.RegisterService(\"" then some n else none
registers_service other = none

-- `"…": func(ctx …` and `"…": {`
abbrev names_method : String → Line → Option String
names_method b (text a ∷ name n ∷ text c ∷ r) = if a == "\"" && c == b then some n else none
names_method b other = none

abbrev is_line : String → Line → Bool
is_line a (text b ∷ []) = b == a
is_line a other = false

-- What the reader of the server's part remembers: the service, a stream's name, its first flag.
pub data Reader : Type 0 where
  service : String → Reader
  named : String → String → Reader
  flagged : String → String → Bool → Reader

abbrev server_line : Reader → Line → Reader × List Entry
server_line (service f) l = elim (registers_service l) [
  | some g ↦ (service g, [])
  | none ↦ elim (names_method "\": func(ctx " l) [
    | some n ↦ (service f, unary f n ∷ [])
    | none ↦ elim (names_method "\": {" l) [ some n ↦ (named f n, []) | none ↦ (service f, []) ]
  ]
]
server_line (named f n) l =
    if is_line "StreamingClient: true," l
    then (flagged f n true, [])
    else if is_line "StreamingClient: false," l
    then (flagged f n false, [])
    else (named f n, [])
server_line (flagged f n c) l =
    if is_line "StreamingServer: true," l
    then (service f, stream f n c true ∷ [])
    else if is_line "StreamingServer: false," l
    then (service f, stream f n c false ∷ [])
    else (flagged f n c, [])

unfoldable pub server_entries : Reader → List Line → List Entry
server_entries r [] = []
server_entries r (l ∷ ls) = let (q, es) = server_line r l in es ++ server_entries q ls

-- `if err := c.client.Call(ctx, "…", "…", …`
abbrev calls : Line → Option Entry
calls (text a ∷ name f ∷ text b ∷ name n ∷ r) =
    if a == "if err := c.client.Call(ctx, \"" then some (unary f n) else none
calls other = none

abbrev sets_flag : String → Line → Option Bool
sets_flag a (text b ∷ text v ∷ r) =
    if b == a
    then if v == "true" then some true else if v == "false" then some false else none
    else none
sets_flag a other = none

-- `}, "…", "…", …`
abbrev opens : Line → Option (String × String)
opens (text a ∷ text b ∷ name f ∷ text c ∷ text d ∷ text e ∷ name n ∷ r) =
    if a == "}, " then some (f, n) else none
opens other = none

-- What the reader of the client's part remembers: the flags of the stream to be opened.
pub data Desc : Type 0 where
  nothing : Desc
  one : Bool → Desc
  both : Bool → Bool → Desc

abbrev client_line : Desc → Line → Desc × List Entry
client_line nothing l = elim (calls l) [
  | some e ↦ (nothing, e ∷ [])
  | none ↦ elim (sets_flag "StreamingClient: " l) [ some c ↦ (one c, []) | none ↦ (nothing, []) ]
]
client_line (one c) l = elim (sets_flag "StreamingServer: " l) [
  | some s ↦ (both c s, [])
  | none ↦ (one c, [])
]
client_line (both c s) l = elim (opens l) [
  | some (f, n) ↦ (nothing, stream f n c s ∷ [])
  | none ↦ (both c s, [])
]

unfoldable pub client_entries : Desc → List Line → List Entry
client_entries d [] = []
client_entries d (l ∷ ls) = let (e, es) = client_line d l in es ++ client_entries e ls

-- A reader that finds these entries in these lines goes on as before behind them.
module _ (read : List Line → List Entry) where
  abbrev pub Finds : List Line → List Entry → Type 0
  Finds ls es = (rest : List Line) → read (ls ++ rest) ≡ es ++ read rest

  pub Finds-append :
      (xs ys : List Line) (es fs : List Entry)
      → Finds xs es
      → Finds ys fs
      → Finds (xs ++ ys) (es ++ fs)
  Finds-append xs ys es fs p q rest =
      ap read (append_assoc xs ys rest)
      ∙ p (ys ++ rest)
      ∙ ap (λ w. es ++ w) (q rest)
      ∙ sym (append_assoc es fs (read rest))

  -- Lines that say nothing behind
  pub Finds-quiet :
      (xs ys : List Line) (es : List Entry) → Finds xs es → Finds ys [] → Finds (xs ++ ys) es
  Finds-quiet xs ys es p q rest =
      ap read (append_assoc xs ys rest) ∙ p (ys ++ rest) ∙ ap (λ w. es ++ w) (q rest)

  pub Finds-unless_empty :
      (g : Method → Entry) (ms : List Method) (ls : List Line)
      → Finds ls (map g ms)
      → Finds (unless_empty ms ls) (map g ms)
  unfolding unless_empty
  Finds-unless_empty g [] ls p rest = refl
  Finds-unless_empty g (m ∷ ms) ls p rest = p rest

  pub Finds-unless_empty_quiet :
      (ms : List Method) (ls : List Line) → Finds ls [] → Finds (unless_empty ms ls) []
  unfolding unless_empty
  Finds-unless_empty_quiet [] ls p rest = refl
  Finds-unless_empty_quiet (m ∷ ms) ls p rest = p rest

  -- Lines that say nothing of one method, or one thing
  pub Finds-none :
      (f : Method → List Line) (ms : List Method)
      → ((m : Method) → Finds (f m) [])
      → Finds (each f ms) []
  unfolding each
  Finds-none f [] p rest = refl
  Finds-none f (m ∷ ms) p rest = Finds-append (f m) (each f ms) [] [] (p m) (Finds-none f ms p) rest

  pub Finds-each :
      (f : Method → List Line) (g : Method → Entry) (ms : List Method)
      → ((m : Method) → Finds (f m) (g m ∷ []))
      → Finds (each f ms) (map g ms)
  unfolding each
  Finds-each f g [] p rest = refl
  Finds-each f g (m ∷ ms) p rest =
      Finds-append (f m) (each f ms) (g m ∷ []) (map g ms) (p m) (Finds-each f g ms p) rest

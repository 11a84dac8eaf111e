-- ===== src/Strings/Escape.antt =====
-- `escape_symbol`, `escape_quote` and `add_newline_backslash` in strings/string_utils.cpp.
use hiaux.Base.{
  ℕ, ◌+◌, ◌*◌, ◌≤◌, ◌<◌, ◌≡◌, ◌≢◌, refl, ap, sym, [], ◌∷◌, ◌++◌, Bool, true, false, Option, some,
  none, Bytes, length, ◌==◌, ==_iff, Bool-cases, inl, inr, if◌then◌else◌, arith, All-append,
}
use hiaux.Text.Find.{Lacks}
use mathlib.Core.Option

-- What the loop writes into the buffer `bf`.
unfoldable pub escaped : Bytes → ℕ → Bytes
escaped [] sym = []
escaped (c ∷ s) sym = if c == sym then b'\\' ∷ sym ∷ escaped s sym else c ∷ escaped s sym

-- `std::string(bf)`, which ends at the first NUL.
unfoldable pub c_string : Bytes → Bytes
c_string [] = []
c_string (c ∷ s) = if c == 0 then [] else c ∷ c_string s

unfoldable pub escape_symbol : Bytes → ℕ → Bytes
escape_symbol s sym = c_string (escaped s sym)

unfoldable pub escape_quote : Bytes → Bytes
escape_quote s = escape_symbol s b'\''

unfoldable pub add_newline_backslash : Bytes → Bytes
add_newline_backslash s = escape_symbol s b'\n'

-- The loop writes at most two characters for one, so the NUL fits in the buffer of
-- `size() * 2 + 1` characters.
pub length-escaped :
    (s : Bytes) (sym : ℕ)
    → (length s ≤ length (escaped s sym)) × (length (escaped s sym) < length s * 2 + 1)
unfolding escaped
length-escaped [] sym = (omega arith, omega arith)
length-escaped (c ∷ s) sym = ground (arith, length-escaped s sym)

pub c_string-Lacks : (s : Bytes) → Lacks 0 s → c_string s ≡ s
unfolding c_string
c_string-Lacks [] h = refl
c_string-Lacks (c ∷ s) h = ground (arith, c_string-Lacks s h.1)

escaped-Lacks : (s : Bytes) (sym : ℕ) → 0 < sym → Lacks 0 s → Lacks 0 (escaped s sym)
unfolding escaped
escaped-Lacks [] sym h k = tt
escaped-Lacks (c ∷ s) sym h (n, k) = elim (Bool-cases (c == sym)) [
  | inl e ↦ rw e (ground arith, (ground arith, escaped-Lacks s sym h k))
  | inr e ↦ rw e (n, escaped-Lacks s sym h k)
]

-- Reads a quoted literal behind its opening quote, a backslash taking the next character as it is:
-- the text that it stands for and what is left behind the closing quote. The flag says that a
-- backslash was read.
abbrev pub literal : Bool → Bytes → Option (Bytes × Bytes)
literal taken [] = none
literal true (c ∷ s) = Option.map (λ r. (c ∷ r.0, r.1)) (literal false s)
literal false (c ∷ s) =
    if c == b'\''
    then some ([], s)
    else if c == b'\\'
    then literal true s
    else Option.map (λ r. (c ∷ r.0, r.1)) (literal false s)

literal-escaped :
    (s t : Bytes) → Lacks b'\\' s → literal false (escaped s b'\'' ++ b'\'' ∷ t) ≡ some (s, t)
unfolding escaped
literal-escaped [] t h = refl
literal-escaped (c ∷ s) t (n, k) = elim (Bool-cases (c == b'\'')) [
  | inl e ↦ rw (e, literal-escaped s t k) (ap (λ d. some (d ∷ s, t)) (sym ((==_iff c b'\'').0 e)))
  | inr e ↦ rw e (ground (arith, literal-escaped s t k))
]

-- A text without backslashes and NULs, put between quotes by `escape_quote`, is read back as it is.
pub literal-escape_quote :
    (s t : Bytes)
    → Lacks 0 s
    → Lacks b'\\' s
    → literal false (escape_quote s ++ b'\'' ∷ t) ≡ some (s, t)
unfolding escape_quote escape_symbol
literal-escape_quote s t n h =
    rw (c_string-Lacks (escaped s b'\'') (escaped-Lacks s b'\'' (omega arith) n))
      (literal-escaped s t h)

literal-unescaped_backslash :
    (s t : Bytes)
    → Lacks b'\\' s
    → literal false (escaped (s ++ b'\\' ∷ b'\'' ∷ t) b'\'')
      ≡ some (s ++ b'\\' ∷ [], escaped t b'\'')
unfolding escaped
literal-unescaped_backslash [] t h = refl
literal-unescaped_backslash (c ∷ s) t (n, k) = elim (Bool-cases (c == b'\'')) [
  | inl e ↦
      rw (e, literal-unescaped_backslash s t k)
        (ap (λ d. some (d ∷ s ++ b'\\' ∷ [], escaped t b'\'')) (sym ((==_iff c b'\'').0 e)))
  | inr e ↦ rw e (ground (arith, literal-unescaped_backslash s t k))
]

-- A backslash is not escaped: behind one, a quote of the text closes the literal, and the rest of
-- the text stands outside of it.
pub escape_quote_backslash :
    (s t : Bytes)
    → Lacks 0 s
    → Lacks 0 t
    → Lacks b'\\' s
    → literal false (escape_quote (s ++ b'\\' ∷ b'\'' ∷ t)) ≡ some (s ++ b'\\' ∷ [], escape_quote t)
unfolding escape_quote escape_symbol
escape_quote_backslash s t n m h =
    let all : Lacks 0 (s ++ b'\\' ∷ b'\'' ∷ t) =
      All-append (λ x. x ≢ 0) s (b'\\' ∷ b'\'' ∷ t) n (omega arith, (omega arith, m)) in
    rw
      (
        c_string-Lacks _ (escaped-Lacks (s ++ b'\\' ∷ b'\'' ∷ t) b'\'' (omega arith) all),
        c_string-Lacks _ (escaped-Lacks t b'\'' (omega arith) m),
      )
      (literal-unescaped_backslash s t h)

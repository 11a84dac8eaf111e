-- ===== src/LoadConf/Templates.antt =====
-- `replaceEnvParams` of loadconf/loadconf.cpp on a text with variables in it.
use hiaux.Base.{
  ℕ, zero, suc, ◌+◌, ◌-◌, ◌%◌, ◌^◌, ◌≤◌, ◌<◌, ◌≡◌, refl, ap, ◌∙◌, List, [], ◌∷◌, ◌++◌, false,
  Option, some, Bytes, length, take, drop, ltb, arith, All, length-append, take-append, drop-append,
  drop-zero, append_assoc,
}
use hiaux.Text.Find.{Lacks, find-append, Lacks-find}
use hiaux.LoadConf.{
  replaced, var_at, append_value, replace_var, replace_closed, replace_found, replace_loop,
  replace_env_params,
}

-- A text, the name of a variable behind it, and the variable's value.
pub record Part : Type 0 where
  pub literal : Bytes
  pub var : Bytes
  pub value : Bytes

abbrev pub print_parts : List Part → Bytes → Bytes
print_parts [] tail = tail
print_parts (p ∷ ps) tail = p.literal ++ b'$' ∷ b'{' ∷ (p.var ++ b'}' ∷ print_parts ps tail)

abbrev pub expand : List Part → Bytes
expand [] = []
expand (p ∷ ps) = p.literal ++ (p.value ++ expand ps)

without_last : (t : Bytes) (c : ℕ) → take (length (t ++ c ∷ []) - 1) (t ++ c ∷ []) ≡ t
without_last t c =
    ap (λ n. take n (t ++ c ∷ [])) (omega (arith, length-append t (c ∷ [])))
    ∙ take-append t (c ∷ [])

behind :
    (var rest : Bytes)
    → drop (suc (suc (suc (length var)))) (b'$' ∷ b'{' ∷ (var ++ b'}' ∷ rest)) ≡ rest
behind [] rest = drop-zero rest
behind (x ∷ var) rest = behind var rest

length-parts : (ps : List Part) (tail : Bytes) → length ps ≤ length (print_parts ps tail)
length-parts [] tail = omega arith
length-parts (p ∷ ps) tail = omega (
  arith,
  length-parts ps tail,
  length-append p.literal (b'$' ∷ b'{' ∷ (p.var ++ b'}' ∷ print_parts ps tail)),
  length-append p.var (b'}' ∷ print_parts ps tail),
)

module _ (getenv : Bytes → Option Bytes) where
  pub record IsPart (p : Part) : Type 0 where
    pub no_dollar : Lacks b'$' p.literal
    pub no_brace : Lacks b'}' p.var
    pub is_set : getenv p.var ≡ some p.value
    pub small : length p.var < 2 ^ 64

  var_at-print :
      (var rest : Bytes)
      → length var < 2 ^ 64
      → var_at (b'$' ∷ b'{' ∷ (var ++ b'}' ∷ rest)) (suc (suc (length var))) ≡ some var
  unfolding var_at
  var_at-print var rest h =
      let n : (suc (suc (length var)) + 2 ^ 64 - 2) % 2 ^ 64 ≡ length var = omega arith in
      let full : ltb (suc (suc (length (var ++ b'}' ∷ rest)))) 2 ≡ false = ground arith in
      rw (full, n, drop-zero (var ++ b'}' ∷ rest), take-append var (b'}' ∷ rest)) refl

  replace_loop-print :
      (ps : List Part) (fuel : ℕ) (t ret : Bytes) (c : ℕ)
      → All IsPart ps
      → Lacks b'$' (t ++ c ∷ [])
      → length ps < fuel
      → replace_loop getenv fuel (print_parts ps (t ++ c ∷ [])) ret
        ≡ replaced (ret ++ (expand ps ++ t))
  unfolding replace_loop replace_found replace_closed replace_var append_value
  replace_loop-print ps zero t ret c hs h k = absurd (omega arith)
  replace_loop-print [] (suc fuel) t ret c hs h k =
      rw (Lacks-find b'$' (t ++ c ∷ []) h, without_last t c) refl
  replace_loop-print (p ∷ ps) (suc fuel) t ret c (g, hs) h k =
      rw
        (
          find-append b'$' p.literal (b'{' ∷ (p.var ++ b'}' ∷ print_parts ps (t ++ c ∷ [])))
              g.no_dollar,
          drop-append p.literal (b'$' ∷ b'{' ∷ (p.var ++ b'}' ∷ print_parts ps (t ++ c ∷ []))),
          take-append p.literal (b'$' ∷ b'{' ∷ (p.var ++ b'}' ∷ print_parts ps (t ++ c ∷ []))),
          find-append b'}' (b'$' ∷ b'{' ∷ p.var) (print_parts ps (t ++ c ∷ []))
              (omega arith, (omega arith, g.no_brace)),
          var_at-print p.var (print_parts ps (t ++ c ∷ [])) g.small,
          g.is_set,
          behind p.var (print_parts ps (t ++ c ∷ [])),
          replace_loop-print ps fuel t ((ret ++ p.literal) ++ p.value) c hs h (omega arith),
        )
        (ap replaced (simp append_assoc))

  -- A text whose variables are all set, none with a closing brace in its name, and that has a character
  -- behind its last variable, but no `$` there and none between the variables, is expanded without an
  -- exception, but its last character is lost.
  pub replace_env_params-print :
      (ps : List Part) (t : Bytes) (c : ℕ)
      → All IsPart ps
      → Lacks b'$' (t ++ c ∷ [])
      → replace_env_params getenv (print_parts ps (t ++ c ∷ [])) ≡ replaced (expand ps ++ t)
  unfolding replace_env_params
  replace_env_params-print ps t c hs h =
      replace_loop-print ps (suc (length (print_parts ps (t ++ c ∷ [])))) t [] c hs h
        (omega (arith, length-parts ps (t ++ c ∷ [])))

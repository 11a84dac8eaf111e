-- ===== src/Api/Access.antt =====
-- `checkFields` of network/HttpApi/HttpApi.impl: who may call which method.
use hiaux.Base.{
  ◌≡◌, ◌↔◌, ◌⊎◌, inl, inr, refl, List, [], ◌∷◌, ◌++◌, true, false, Option, none, some, Bytes, codes,
  bytes_eq_iff, All, arith, Bool-cases,
}
use hiaux.Base.Dict.{lookup, is_some}
use hiaux.Api.{
  Api, Params, accepted, all_set, is_signed, check_key, check_service, check_signed, check_args,
  check_method, check_fields,
}

-- The parameter is there.
abbrev pub IsGiven : Params → Bytes → Type 0
IsGiven fields name = (v : Bytes) × (lookup name fields ≡ some v)

is_some_iff : (fields : Params) (f : Bytes) → (is_some (lookup f fields) ≡ true) ↔ IsGiven fields f
is_some_iff fields f = go (lookup f fields)
  where
    go : (o : Option Bytes) → (is_some o ≡ true) ↔ ((v : Bytes) × (o ≡ some v))
    go none = (λ e. ground arith, λ (v, e). ground arith)
    go (some v) = (λ e. (v, refl), λ e. refl)

all_set_iff :
    (fs : List Bytes) (fields : Params) → (all_set fs fields ≡ true) ↔ All (IsGiven fields) fs
unfolding all_set
all_set_iff [] fields = (λ e. tt, λ t. refl)
all_set_iff (f ∷ fs) fields = elim (Bool-cases (is_some (lookup f fields))) [
  | inl e ↦
      rw (e, all_set)
        (
          (λ h. ((is_some_iff fields f).0 e, (all_set_iff fs fields).0 h)),
          λ (g, h). (all_set_iff fs fields).1 h,
        )
  | inr e ↦
      rw (e, all_set) ((λ h. ground arith), λ (g, h). ground (arith, (is_some_iff fields f).1 g))
]

module _ (sha1_hex : Bytes → Bytes) where
  -- The signature of a call is that of the method, the time and the user's key.
  abbrev pub IsSignedWith : Bytes → Bytes → Bytes → Option Bytes → Type 0
  IsSignedWith method ts sign key =
      (k : Bytes) × (key ≡ some k) × (sign ≡ sha1_hex (method ++ (ts ++ k)))

  abbrev pub IsAuthentic : Api → Params → Bytes → Type 0
  IsAuthentic a fields method =
      (api_userid : Bytes) × (ts : Bytes) × (sign : Bytes) × (lookup (codes "api_userid") fields
        ≡ some api_userid)
      × (lookup (codes "ts") fields ≡ some ts)
      × (lookup (codes "sign") fields ≡ some sign)
      × IsSignedWith method ts sign (lookup api_userid a.keys)

  -- A registered method with its arguments, signed by a known user if it is to be signed.
  abbrev pub IsAllowed : Api → Params → Type 0
  IsAllowed a fields =
      (method : Bytes) × (args_names : List Bytes) × (lookup (codes "method") fields ≡ some method)
      × (lookup method a.methods_args ≡ some args_names)
      × All (IsGiven fields) args_names
      × ((is_signed a method ≡ false) ⊎ IsAuthentic a fields method)

  check_key_iff :
      (method ts sign : Bytes) (key : Option Bytes)
      → (check_key sha1_hex method ts sign key ≡ accepted) ↔ IsSignedWith method ts sign key
  unfolding check_key
  check_key_iff method ts sign none = (λ e. ground arith, λ (k, e, d). ground arith)
  check_key_iff method ts sign (some k) = (
    λ e. (k, refl, ground (arith, bytes_eq_iff sign (sha1_hex (method ++ (ts ++ k))))),
    λ (j, e, d). ground (arith, bytes_eq_iff sign (sha1_hex (method ++ (ts ++ k)))),
  )

  check_service-accepted :
      (a : Api) (method : Bytes) (userid ts sign : Option Bytes)
      → check_service sha1_hex a method userid ts sign ≡ accepted
      → (u : Bytes) × (t : Bytes) × (s : Bytes) × (userid ≡ some u)
        × (ts ≡ some t)
        × (sign ≡ some s)
        × IsSignedWith method t s (lookup u a.keys)
  unfolding check_service
  check_service-accepted a method (some u) (some t) (some s) d =
      (u, t, s, refl, refl, refl, (check_key_iff method t s (lookup u a.keys)).0 d)
  check_service-accepted a method none ts sign d = ground arith
  check_service-accepted a method (some u) none sign d = ground arith
  check_service-accepted a method (some u) (some t) none d = ground arith

  check_signed_iff :
      (a : Api) (method : Bytes) (fields : Params)
      → (check_signed sha1_hex a method fields ≡ accepted)
        ↔ ((is_signed a method ≡ false) ⊎ IsAuthentic a fields method)
  unfolding check_signed is_signed check_service
  check_signed_iff a method fields = elim (Bool-cases (is_some (lookup method a.signed))) [
    | inl e ↦ rw e (
      (λ d. inr (check_service-accepted a method _ _ _ d)),
      λ d. elim d [
        | inl e' ↦ ground arith
        | inr (u, t, s, e1, e2, e3, k) ↦
            rw (e1, e2, e3) ((check_key_iff method t s (lookup u a.keys)).1 k)
      ],
    )
    | inr e ↦ rw e ((λ d. inl refl), λ d. refl)
  ]

  check_args_iff :
      (a : Api) (method : Bytes) (fields : Params) (known : Option (List Bytes))
      → (check_args sha1_hex a method fields known ≡ accepted) ↔ (
          (args_names : List Bytes) × (known ≡ some args_names)
          × All (IsGiven fields) args_names
          × ((is_signed a method ≡ false) ⊎ IsAuthentic a fields method))
  unfolding check_args
  check_args_iff a method fields none = (λ e. ground arith, λ (n, e, all, d). ground arith)
  check_args_iff a method fields (some names) = (
    λ e. elim (Bool-cases (all_set names fields)) [
      | inl all ↦ (
        names,
        refl,
        (all_set_iff names fields).0 all,
        (check_signed_iff a method fields).0 (ground arith),
      )
      | inr missing ↦ ground arith
    ],
    λ (n, e, all, d). ground (arith, all_set_iff names fields, check_signed_iff a method fields),
  )

  -- A request is accepted if and only if its method is registered, each of the method's arguments
  -- is there and, if the method is signed, `api_userid`, `ts` and `sign` are there, the user has a
  -- key and the signature is the SHA-1 of the method, `ts` and that key.
  pub check_fields_iff :
      (a : Api) (fields : Params) → (check_fields sha1_hex a fields ≡ accepted) ↔ IsAllowed a fields
  unfolding check_fields check_method
  check_fields_iff a fields = (
    go (lookup (codes "method") fields),
    λ (m, n, e, k, all, d).
        rw (e, check_method)
          ((check_args_iff a m fields (lookup m a.methods_args)).1 (n, k, all, d)),
  )
    where
      go :
          (o : Option Bytes)
          → check_method sha1_hex a fields o ≡ accepted
          → (method : Bytes) × (args_names : List Bytes) × (o ≡ some method)
            × (lookup method a.methods_args ≡ some args_names)
            × All (IsGiven fields) args_names
            × ((is_signed a method ≡ false) ⊎ IsAuthentic a fields method)
      go none e = ground arith
      go (some method) e =
          let (n, k, all, d) =
            (check_args_iff a method fields (lookup method a.methods_args)).0 e in
          (method, n, refl, k, all, d)

  -- Two requests that agree on the method, the user, the time and the signature, and that both have
  -- the method's arguments, get the same verdict, whatever the arguments' values are: the signature
  -- does not cover them.
  pub check_fields_arguments :
      (a : Api) (p q : Params) (method : Bytes) (args_names : List Bytes)
      → lookup (codes "method") p ≡ some method
      → lookup (codes "method") q ≡ some method
      → lookup method a.methods_args ≡ some args_names
      → All (IsGiven p) args_names
      → All (IsGiven q) args_names
      → lookup (codes "api_userid") p ≡ lookup (codes "api_userid") q
      → lookup (codes "ts") p ≡ lookup (codes "ts") q
      → lookup (codes "sign") p ≡ lookup (codes "sign") q
      → check_fields sha1_hex a p ≡ check_fields sha1_hex a q
  unfolding check_fields check_method check_args check_signed
  check_fields_arguments a p q m n ep eq known gp gq eu et es =
      rw
        (
          ep,
          eq,
          check_method,
          known,
          check_args,
          (all_set_iff n p).1 gp,
          (all_set_iff n q).1 gq,
          check_signed,
          eu,
          et,
          es,
        )
        refl

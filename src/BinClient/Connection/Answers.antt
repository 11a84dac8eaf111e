-- ===== src/BinClient/Connection/Answers.antt =====
-- Responses matched to requests: the first to the first, and so on.
use hiaux.Base.{
  ℕ, ◌≤◌, ◌≡◌, refl, ap, List, [], ◌∷◌, ◌++◌, true, false, map, Bytes, length, drop, drop-zero,
  arith,
}
use hiaux.BinClient.Connection.{Request, Call, finished}

-- The calls that answer requests by messages, in order.
abbrev pub answers : List Request → List Bytes → List Call
answers [] ms = []
answers (r ∷ rs) [] = []
answers (r ∷ rs) (m ∷ ms) = finished r.callback true m ∷ answers rs ms

answers-nil : (rs : List Request) → answers rs [] ≡ []
answers-nil [] = refl
answers-nil (x ∷ rs) = refl

-- One more message answers the first request that is left.
pub answers-next :
    (rs : List Request) (ms : List Bytes) (r : Request) (left : List Request) (m : Bytes)
    → drop (length ms) rs ≡ r ∷ left
    → (answers rs (ms ++ m ∷ []) ≡ answers rs ms ++ finished r.callback true m ∷ [])
      × (drop (length (ms ++ m ∷ [])) rs ≡ left)
      × (length (ms ++ m ∷ []) ≤ length rs)
answers-next [] ms r left m e = absurd (ground (arith))
answers-next (x ∷ rs) [] r left m e =
    (ground (arith, answers-nil rs), ground (arith, drop-zero rs), omega arith)
answers-next (x ∷ rs) (y ∷ ms) r left m e =
    let (calls, rest, fits) = answers-next rs ms r left m e in
    (ap (◌∷◌ (finished x.callback true y)) calls, rest, omega arith)

pub answers_all :
    (rs : List Request) (ms : List Bytes) → drop (length ms) rs ≡ [] → length rs ≤ length ms
answers_all [] ms e = omega arith
answers_all (x ∷ rs) [] e = ground arith
answers_all (x ∷ rs) (y ∷ ms) e = omega (arith, answers_all rs ms e)

-- Where all requests are answered, more messages change nothing.
pub answers-more :
    (rs : List Request) (ms zs : List Bytes)
    → drop (length ms) rs ≡ []
    → answers rs (ms ++ zs) ≡ answers rs ms
answers-more [] ms zs e = refl
answers-more (x ∷ rs) [] zs e = ground arith
answers-more (x ∷ rs) (y ∷ ms) zs e =
    ap (◌∷◌ (finished x.callback true y)) (answers-more rs ms zs e)

-- A request that is sent later does not change the answers given.
pub answers-append :
    (rs : List Request) (x : Request) (ms : List Bytes)
    → length ms ≤ length rs
    → (answers (rs ++ x ∷ []) ms ≡ answers rs ms)
      × (drop (length ms) (rs ++ x ∷ []) ≡ drop (length ms) rs ++ x ∷ [])
answers-append [] x [] h = (refl, refl)
answers-append [] x (m ∷ ms) h = absurd (omega arith)
answers-append (r ∷ rs) x [] h = (refl, refl)
answers-append (r ∷ rs) x (m ∷ ms) h =
    let (calls, rest) = answers-append rs x ms (omega arith) in
    (ap (◌∷◌ (finished r.callback true m)) calls, rest)

-- The callback that a call reaches.
abbrev pub callee : Call → ℕ
callee (finished n success response) = n

callee-failed :
    (rs : List Request)
    → map callee (map (λ r. finished r.callback false []) rs) ≡ map (λ r. r.callback) rs
callee-failed [] = refl
callee-failed (r ∷ rs) = ap (◌∷◌ r.callback) (callee-failed rs)

-- The answers, and the failures of what is left, reach every callback once and in order.
pub callee-answers :
    (rs : List Request) (ms : List Bytes)
    → map callee (answers rs ms ++ map (λ r. finished r.callback false []) (drop (length ms) rs))
      ≡ map (λ r. r.callback) rs
callee-answers [] ms = refl
callee-answers (r ∷ rs) [] = ap (◌∷◌ r.callback) (callee-failed rs)
callee-answers (r ∷ rs) (m ∷ ms) = ap (◌∷◌ r.callback) (callee-answers rs ms)

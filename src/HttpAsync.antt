-- ===== src/HttpAsync.antt =====
-- network/HttpClientAsync.h and HttpClientAsync.cpp: the table of transfers. A libcurl handle is a number;
-- what `curl_easy_init` gives, the bytes received and the messages of `curl_multi_info_read` are
-- arguments. `m_launcher` is the list of the jobs whose `callHandler` has not run.
use hiaux.Base.{ℕ, List, [], ◌∷◌, ◌++◌, Bool, false, Bytes, ◌==◌, if◌then◌else◌, Option, none, some}
use hiaux.Strings.Escape.{c_string}

-- The options that differ between transfers.
pub record Transfer : Type 0 where
  pub handle : ℕ
  pub url : Bytes
  pub body : Option Bytes

module _ (U : Type 0) where
  pub record JobInfo : Type 0 where
    pub userdata : U
    pub resp : Bytes
    pub success : Bool
    pub postdata : Bytes

  pub record HttpClientAsync : Type 0 where
    pub e_curls : List (ℕ × JobInfo)
    pub transfers : List Transfer
    pub launched : List JobInfo

-- A message of libcurl: the handle, whether it is done, and whether the result is `CURLE_OK`.
pub record Message : Type 0 where
  pub easy_handle : ℕ
  pub is_done : Bool
  pub is_ok : Bool

-- `curl_multi_remove_handle`
unfoldable pub remove_transfer : ℕ → List Transfer → List Transfer
remove_transfer h [] = []
remove_transfer h (t ∷ ts) = if t.handle == h then ts else t ∷ remove_transfer h ts

module _ {U : Type 0} where
  unfoldable pub find_job : ℕ → List (ℕ × JobInfo U) → Option (JobInfo U)
  find_job h [] = none
  find_job h ((k, j) ∷ t) = if k == h then some j else find_job h t

  unfoldable pub set_job : ℕ → JobInfo U → List (ℕ × JobInfo U) → List (ℕ × JobInfo U)
  set_job h i [] = []
  set_job h i ((k, j) ∷ t) = if k == h then (k, i) ∷ t else (k, j) ∷ set_job h i t

  unfoldable pub erase_job : ℕ → List (ℕ × JobInfo U) → List (ℕ × JobInfo U)
  erase_job h [] = []
  erase_job h ((k, j) ∷ t) = if k == h then t else (k, j) ∷ erase_job h t

  -- `insert`, which keeps what is there; the table has no order.
  unfoldable pub insert_job : ℕ → JobInfo U → List (ℕ × JobInfo U) → List (ℕ × JobInfo U)
  insert_job h i [] = (h, i) ∷ []
  insert_job h i ((k, j) ∷ t) = if k == h then (k, j) ∷ t else (k, j) ∷ insert_job h i t

  unfoldable pub new_job : U → Bytes → JobInfo U
  new_job userdata postdata = record {
    userdata = userdata;
    resp = [];
    success = false;
    postdata = postdata;
  }

  unfoldable pub async_call : HttpClientAsync U → ℕ → U → Bytes → HttpClientAsync U
  async_call c h userdata url = record c {
    e_curls = insert_job h (new_job userdata []) c.e_curls;
    transfers = c.transfers ++ record { handle = h; url = c_string url; body = none } ∷ [];
  }

  -- The body without its size: libcurl takes it up to the first NUL.
  unfoldable pub async_call_post : HttpClientAsync U → ℕ → U → Bytes → Bytes → HttpClientAsync U
  async_call_post c h userdata url postdata = record c {
    e_curls = insert_job h (new_job userdata postdata) c.e_curls;
    transfers =
        c.transfers
        ++ record { handle = h; url = c_string url; body = some (c_string postdata) } ∷ [];
  }

  unfoldable pub receive_found :
      HttpClientAsync U → ℕ → Bytes → Option (JobInfo U) → HttpClientAsync U
  receive_found c h s none = c
  receive_found c h s (some j) = record c {
    e_curls = set_job h (record j { resp = j.resp ++ s }) c.e_curls;
  }

  -- What libcurl writes to the response of a handle.
  unfoldable pub receive : HttpClientAsync U → ℕ → Bytes → HttpClientAsync U
  receive c h s = receive_found c h s (find_job h c.e_curls)

  unfoldable pub done_found : HttpClientAsync U → ℕ → Bool → Option (JobInfo U) → HttpClientAsync U
  done_found c h ok none = c
  done_found c h ok (some j) = record c {
    e_curls = erase_job h c.e_curls;
    transfers = remove_transfer h c.transfers;
    launched = c.launched ++ record j { success = ok } ∷ [];
  }

  -- `performTransfers`
  unfoldable pub perform_transfers : HttpClientAsync U → List Message → HttpClientAsync U
  perform_transfers c [] = c
  perform_transfers c (m ∷ ms) =
      let next =
        if m.is_done
        then done_found c m.easy_handle m.is_ok (find_job m.easy_handle c.e_curls)
        else c in
      perform_transfers next ms

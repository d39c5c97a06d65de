-- ===== src/QuickBooks/Client/Outcomes.antt =====
-- How the requests of src/providers/quickbooks/qboClient.ts end.
use qbo_invoice_sync.QuickBooks.Client.Reports.{Reported}
use qbo_invoice_sync.Common.{ℕ, ◌≡◌, ◌≢◌, Option, none, some, List, String}
use qbo_invoice_sync.Errors.{SyncError, Result, ok, err}
use qbo_invoice_sync.Tokens.{ProviderTokens, get_tokens}
use qbo_invoice_sync.QuickBooks.{QboConfig, Reply, Body, Method, Request, Answer, Outside, Qbo}
use qbo_invoice_sync.QuickBooks.Auth.{get_access_token, force_refresh}
use qbo_invoice_sync.QuickBooks.Auth.Failures.{NoToken}
use qbo_invoice_sync.QuickBooks.Client.{lost, send, send_once, request_url}

module _ {N : Type 0} (config : QboConfig) (out : Outside N) (m : Method) (path : List ℕ)
    (body : Option Body) where
  -- The request that is sent for these arguments from a state: at the realm that is connected, and
  -- with a token that the tokens of that state give.
  pub record IsRequest (w : Qbo N) (q : Request) : Type 0 where
    pub same_method : q.method ≡ m
    pub same_body : q.body ≡ body
    pub stored : ProviderTokens
    pub connected : get_tokens "quickbooks" w.tokens ≡ some stored
    pub address : q.url ≡ request_url config stored.realm_id path
    pub asked : Qbo N
    pub same_tokens : asked.tokens ≡ w.tokens
    pub token : (get_access_token config out asked).0 ≡ ok q.token

  -- One request, whose answer is not read yet.
  data Sent (w : Qbo N) (r : Result Answer) : Type 0 where
    unsent : (e : SyncError) → r ≡ err e → NoToken config out w e → Sent w r
    missed :
        (q : Request) (n : N)
        → IsRequest w q
        → (out.send q n).0 ≡ none
        → r ≡ err (lost m)
        → Sent w r
    answered :
        (q : Request) (n : N) (a : Answer)
        → IsRequest w q
        → (out.send q n).0 ≡ some a
        → r ≡ ok a
        → Sent w r

  -- One request: no token can be had, or the answer, or its lack, is reported by the table.
  pub data Once (w : Qbo N) (r : Result (Option Reply)) : Type 0 where
    no_token : (e : SyncError) → r ≡ err e → NoToken config out w e → Once w r
    reported :
        (q : Request) (n : N)
        → IsRequest w q
        → Reported out.parse_fault m (out.send q n).0 r
        → Once w r

  -- How a request ends. Where its answer is a status of 401, the tokens are renewed from the state `v`
  -- that it left, and it is sent once more.
  pub data Ended (w : Qbo N) (r : Result (Option Reply)) : Type 0 where
    unauthorized : (e : SyncError) → r ≡ err e → NoToken config out w e → Ended w r
    at_once :
        (q : Request) (n : N)
        → IsRequest w q
        → ((a : Answer) → (out.send q n).0 ≡ some a → a.status ≢ 401)
        → Reported out.parse_fault m (out.send q n).0 r
        → Ended w r
    not_renewed :
        (q : Request) (n : N) (a : Answer) (v : Qbo N) (e : SyncError)
        → IsRequest w q
        → (out.send q n).0 ≡ some a
        → a.status ≡ 401
        → send_once config out m path body w ≡ (ok a, v)
        → r ≡ err e
        → NoToken config out v e
        → Ended w r
    renewed :
        (q : Request) (n : N) (a : Answer) (v : Qbo N) (token : String) (u : Qbo N)
        → IsRequest w q
        → (out.send q n).0 ≡ some a
        → a.status ≡ 401
        → send_once config out m path body w ≡ (ok a, v)
        → force_refresh config out v ≡ (ok token, u)
        → Once u r
        → Ended w r

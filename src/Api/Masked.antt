-- ===== src/Api/Masked.antt =====
-- The errors of `GetTransactionMessage` (api/handlers/transactions.go), and its bank sends.

use spectra_gnoland_indexer.Common.{
  ℕ, String, ◌≡◌, refl, ap, ◌∙◌, Bool, true, false, Option, none, some, List, [], ◌∷◌, ◌++◌, map,
  Result, ok, err, lookup, GoMap, string_comparable, str_eq, Bool-cases, or_else, ◌==◌,
  if◌then◌else◌, nat_comparable, arith, inl, inr,
}
use spectra_gnoland_indexer.Timescale.{DbError, Encodings}
use spectra_gnoland_indexer.Api.{HttpError, internal_error}
use spectra_gnoland_indexer.Api.Transactions.{parse_tx_hash}
use spectra_gnoland_indexer.Api.Bodies.{last_of}
use spectra_gnoland_indexer.Api.Messages.{
  Messages, bank_send_message, store_all, store_multi_sends, call_message, add_package_message,
  run_message, create_session_message, revoke_session_message, revoke_all_sessions_message,
}
use spectra_gnoland_indexer.Api.Responses.{last_at, lookup-store_all}
use spectra_gnoland_indexer.Api.Dispatch.{
  MessageDb, Handler, respond, one_each, get_bank_send, get_bank_send_response, BankSendColumns,
  scan_bank_send, dispatch, handle, handle_types, trim_spaces, get_transaction_message,
  get_bank_multi_send_response, get_msg_call_response, get_msg_add_package_response,
  get_msg_run_response, get_msg_auth_cr_session_response, get_msg_auth_rv_session_response,
  get_msg_auth_rv_all_sessions_response,
}

-- a result, or the error that tells nothing
abbrev IsMaskedResult : Result HttpError Messages → Type 0
IsMaskedResult (ok response) = Unit
IsMaskedResult (err e) = e ≡ internal_error

abbrev IsMasked : Option Handler → Type 0
IsMasked none = Unit
IsMasked (some handler) = (response : Messages) → IsMaskedResult (handler response)

respond-IsMaskedResult :
    {R : Type 0} (store : List R → Messages → Messages) (rows : Result DbError (List R))
    (response : Messages)
    → IsMaskedResult (respond store rows response)
respond-IsMaskedResult store (ok rows) response = tt
respond-IsMaskedResult store (err e) response = refl

abbrev AllMasked : GoMap String Handler → Type 0
AllMasked [] = Unit
AllMasked ((t, handler) ∷ table) =
    ((response : Messages) → IsMaskedResult (handler response)) × AllMasked table

lookup-IsMasked :
    (t : String) (table : GoMap String Handler) → AllMasked table → IsMasked (lookup t table)
unfolding lookup
lookup-IsMasked t [] h = tt
lookup-IsMasked t ((j, handler) ∷ table) (h, hs) = elim (Bool-cases (str_eq j t)) [
  | inl e ↦ rw e h
  | inr e ↦ rw e (lookup-IsMasked t table hs)
]

module _ (db : MessageDb) (tx_hash : List ℕ) (chain_name : String) where
  dispatch-AllMasked : AllMasked (dispatch db tx_hash chain_name)
  unfolding dispatch get_bank_send_response get_bank_multi_send_response get_msg_call_response
      get_msg_add_package_response get_msg_run_response get_msg_auth_cr_session_response
      get_msg_auth_rv_session_response get_msg_auth_rv_all_sessions_response
  dispatch-AllMasked = (
    respond-IsMaskedResult (one_each (bank_send_message "bank_msg_send"))
        (db.get_bank_send_rows tx_hash chain_name),
    (
      respond-IsMaskedResult (store_multi_sends "bank_msg_multi_send")
          (db.get_bank_multi_send tx_hash chain_name),
      (
        respond-IsMaskedResult (one_each (call_message "vm_msg_call"))
            (db.get_msg_call tx_hash chain_name),
        (
          respond-IsMaskedResult (one_each (add_package_message "vm_msg_add_package"))
              (db.get_msg_add_package tx_hash chain_name),
          (
            respond-IsMaskedResult (one_each (run_message "vm_msg_run"))
                (db.get_msg_run tx_hash chain_name),
            (
              respond-IsMaskedResult (one_each (create_session_message "auth_msg_create_session"))
                  (db.get_msg_auth_cr_session tx_hash chain_name),
              (
                respond-IsMaskedResult (one_each (revoke_session_message "auth_msg_revoke_session"))
                    (db.get_msg_auth_rv_session tx_hash chain_name),
                (
                  respond-IsMaskedResult
                      (one_each (revoke_all_sessions_message "auth_msg_revoke_all_sessions"))
                      (db.get_msg_auth_rv_all_sessions tx_hash chain_name),
                  tt,
                ),
              ),
            ),
          ),
        ),
      ),
    ),
  )

  handle-IsMaskedResult :
      (handler : Option Handler) (response : Result HttpError Messages)
      → IsMasked handler
      → IsMaskedResult response
      → IsMaskedResult (handle db tx_hash chain_name handler response)
  handle-IsMaskedResult handler (err e) h k = k
  handle-IsMaskedResult none (ok response) h k = refl
  handle-IsMaskedResult (some handler) (ok response) h k = h response

  stays_failed :
      (types : List String) (e : HttpError)
      → handle_types db tx_hash chain_name types (err e) ≡ err e
  unfolding handle_types
  stays_failed [] e = refl
  stays_failed (t ∷ types) e = stays_failed types e

  unknown_fails :
      (response : Result HttpError Messages)
      → IsMaskedResult response
      → handle db tx_hash chain_name none response ≡ err internal_error
  unknown_fails (ok response) h = refl
  unknown_fails (err e) h = ap err h

  handle_types_unknown :
      (pre : List String) (t : String) (post : List String) (response : Result HttpError Messages)
      → IsMaskedResult response
      → lookup t (dispatch db tx_hash chain_name) ≡ none
      → handle_types db tx_hash chain_name (pre ++ t ∷ post) response ≡ err internal_error
  unfolding handle_types
  handle_types_unknown [] t post response h d =
      rw (handle_types, d, unknown_fails response h) (stays_failed post internal_error)
  handle_types_unknown (x ∷ pre) t post response h d =
      handle_types_unknown pre t post
        (handle db tx_hash chain_name (lookup x (dispatch db tx_hash chain_name)) response)
        (handle-IsMaskedResult (lookup x (dispatch db tx_hash chain_name)) response
          (lookup-IsMasked x (dispatch db tx_hash chain_name) dispatch-AllMasked) h)
        d

-- If one of the types of the messages of a transaction has no helper, GetTransactionMessage answers
-- with the internal error, whatever the queries give and wherever the type stands.
get_transaction_message_unknown :
    (base64 : Encodings) (db : MessageDb) (chain_name : String) (tx_hash hash : List ℕ)
    (pre : List String) (t : String) (post : List String)
    → parse_tx_hash base64 (trim_spaces tx_hash) ≡ some hash
    → db.get_msg_types hash chain_name ≡ ok (pre ++ t ∷ post)
    → lookup t (dispatch db hash chain_name) ≡ none
    → get_transaction_message base64 db chain_name tx_hash ≡ err internal_error
unfolding get_transaction_message
get_transaction_message_unknown base64 db chain_name tx_hash hash pre t post p q d =
    rw (get_transaction_message, p, q)
      (handle_types_unknown db hash chain_name pre t post (ok []) tt d)

or_else_if {ℓ} :
    {A : Type ℓ} (b : Bool) (a : A) (o : Option A)
    → or_else (if b then some a else none) o ≡ (if b then some a else o)
or_else_if true a o = refl
or_else_if false a o = refl

last_at_zero :
    (c : BankSendColumns) (cols : List BankSendColumns) (j : ℕ)
    → last_at j (map (bank_send_message "bank_msg_send") (map scan_bank_send (c ∷ cols))) ≡ (
        if j == 0
        then some (bank_send_message "bank_msg_send" (scan_bank_send (last_of c cols))).1
        else none)
last_at_zero c [] j = ground arith
last_at_zero c (d ∷ cols) j = ground (arith, last_at_zero d cols j)

-- The bank sends of a transaction all come under counter 0, where only the last one of them stays:
-- no other counter gets one, and a message of another type at 0 is replaced.
pub get_bank_send_response_counter :
    (db : MessageDb) (query : List ℕ → String → Result DbError (List BankSendColumns))
    (tx_hash : List ℕ) (chain_name : String) (c : BankSendColumns) (cols : List BankSendColumns)
    (response : Messages)
    → db.get_bank_send_rows tx_hash chain_name ≡ get_bank_send query tx_hash chain_name
    → query tx_hash chain_name ≡ ok (c ∷ cols)
    → (after : Messages) × (get_bank_send_response db tx_hash chain_name response ≡ ok after)
      × ((j : ℕ)
          → lookup j after ≡ (
              if j == 0
              then some (bank_send_message "bank_msg_send" (scan_bank_send (last_of c cols))).1
              else lookup j response))
unfolding get_bank_send_response get_bank_send
get_bank_send_response_counter db query tx_hash chain_name c cols response p q = (
  store_all (map (bank_send_message "bank_msg_send") (map scan_bank_send (c ∷ cols))) response,
  rw (get_bank_send_response, p, get_bank_send, q),
  λ j.
      lookup-store_all j (map (bank_send_message "bank_msg_send") (map scan_bank_send (c ∷ cols)))
        response
      ∙ ap (λ o. or_else o (lookup j response)) (last_at_zero c cols j)
      ∙ or_else_if (j == 0) _ (lookup j response),
)

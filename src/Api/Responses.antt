-- ===== src/Api/Responses.antt =====
-- What the responses of api/handlers/transactions.go hold under each message counter.
use mathlib.Core.List.{append_assoc, append-nil}
use mathlib.Core.Option
use spectra_gnoland_indexer.Common.{
  ℕ, String, ◌≡◌, refl, ap, ◌∙◌, Bool, true, false, Option, none, some, List, [], ◌∷◌, ◌++◌, GoMap,
  lookup, put, lookup-put, lookup-copy, or_else, ◌==◌, if◌then◌else◌, nat_comparable, arith,
  Bool-cases, inl, inr,
}
use spectra_gnoland_indexer.Timescale.Types.{MultiSendEntry, BankMultiSendRow}
use spectra_gnoland_indexer.Api.Messages.{
  TransactionMessage, Messages, message, store_all, Gathered, new_gathered, entry_of, add_entry,
  gather, finished, finish_all, store_multi_sends,
}

-- the last of the messages that have a counter
abbrev pub last_at : ℕ → List (ℕ × TransactionMessage) → Option TransactionMessage
last_at j [] = none
last_at j ((index, m) ∷ rows) = or_else (last_at j rows) (if index == j then some m else none)

pub lookup-store_all :
    (j : ℕ) (rows : List (ℕ × TransactionMessage)) (response : Messages)
    → lookup j (store_all rows response) ≡ or_else (last_at j rows) (lookup j response)
unfolding store_all
lookup-store_all j [] response = refl
lookup-store_all j ((index, m) ∷ rows) response =
    lookup-store_all j rows (put index m response)
    ∙ or_else_step j index m response (last_at j rows)
  where
    or_else_step :
        (j index : ℕ) (m : TransactionMessage) (response : Messages) (o : Option TransactionMessage)
        → or_else o (lookup j (put index m response))
          ≡ or_else (or_else o (if index == j then some m else none)) (lookup j response)
    or_else_step j index m response none = ground (arith, lookup-put index j m response)
    or_else_step j index m response (some a) = refl

-- the entries of one direction and one counter, in order
abbrev pub entries : Bool → ℕ → List BankMultiSendRow → List MultiSendEntry
entries direction j [] = []
entries direction j (d ∷ rows) =
    let rest = entries direction j rows in
    if d.message_counter == j
    then (if d.direction
        then (if direction then entry_of d ∷ rest else rest)
        else if direction
        then rest
        else entry_of d ∷ rest)
    else rest

-- the first row with a counter
abbrev first_at : ℕ → List BankMultiSendRow → Option BankMultiSendRow
first_at j [] = none
first_at j (d ∷ rows) = if d.message_counter == j then some d else first_at j rows

-- the message of a counter: the fields of its first row, and its entries by direction
abbrev pub multi_send_message : String → ℕ → List BankMultiSendRow → Option TransactionMessage
multi_send_message msg_type j rows =
    Option.map
      (λ d. record (message msg_type d.tx_hash d.timestamp d.signers) {
        inputs = entries false j rows;
        outputs = entries true j rows;
      })
      (first_at j rows)

lookup-finish_all :
    (j : ℕ) (by_counter : GoMap ℕ Gathered)
    → lookup j (finish_all by_counter) ≡ Option.map finished (lookup j by_counter)
unfolding finish_all lookup
lookup-finish_all j [] = refl
lookup-finish_all j ((index, a) ∷ by_counter) = ground (arith, lookup-finish_all j by_counter)

-- the rows with the counter added to what has been gathered
abbrev extended : ℕ → List BankMultiSendRow → Gathered → Gathered
extended j rows a = record a {
  inputs = a.inputs ++ entries false j rows;
  outputs = a.outputs ++ entries true j rows;
}

abbrev gathered_at : String → ℕ → List BankMultiSendRow → Option Gathered → Option Gathered
gathered_at msg_type j rows (some a) = some (extended j rows a)
gathered_at msg_type j rows none =
    Option.map (λ d. extended j rows (new_gathered msg_type d)) (first_at j rows)

add_entry_step :
    (direction : Bool) (entry : MultiSendEntry) (a : Gathered) (ins outs : List MultiSendEntry)
    → ◌≡◌ {A = Gathered}
        (record a {
          base = (add_entry direction entry a).base;
          inputs = (add_entry direction entry a).inputs ++ ins;
          outputs = (add_entry direction entry a).outputs ++ outs;
        })
        (record a {
          inputs = a.inputs ++ (if direction then ins else entry ∷ ins);
          outputs = a.outputs ++ (if direction then entry ∷ outs else outs);
        })
add_entry_step true entry a ins outs = rw (append_assoc a.outputs (entry ∷ []) outs)
add_entry_step false entry a ins outs = rw (append_assoc a.inputs (entry ∷ []) ins)

extended-add_entry :
    (j : ℕ) (d : BankMultiSendRow) (rows : List BankMultiSendRow) (a : Gathered)
    → (d.message_counter == j) ≡ true
    → extended j rows (add_entry d.direction (entry_of d) a) ≡ extended j (d ∷ rows) a
extended-add_entry j d rows a h =
    rw h (add_entry_step d.direction (entry_of d) a (entries false j rows) (entries true j rows))

gathered_at_hit :
    (msg_type : String) (j : ℕ) (d : BankMultiSendRow) (rows : List BankMultiSendRow)
    (o : Option Gathered)
    → (d.message_counter == j) ≡ true
    → some (
        extended j rows
          (add_entry d.direction (entry_of d) (Option.get_or o (new_gathered msg_type d))))
      ≡ gathered_at msg_type j (d ∷ rows) o
gathered_at_hit msg_type j d rows (some a) h = ap some (extended-add_entry j d rows a h)
gathered_at_hit msg_type j d rows none h =
    ap some (extended-add_entry j d rows (new_gathered msg_type d) h) ∙ rw h

gathered_at_miss :
    (msg_type : String) (j : ℕ) (d : BankMultiSendRow) (rows : List BankMultiSendRow)
    (o : Option Gathered)
    → (d.message_counter == j) ≡ false
    → gathered_at msg_type j rows o ≡ gathered_at msg_type j (d ∷ rows) o
gathered_at_miss msg_type j d rows (some a) h = rw h
gathered_at_miss msg_type j d rows none h = rw h

gathered_at_nil :
    (msg_type : String) (j : ℕ) (o : Option Gathered) → o ≡ gathered_at msg_type j [] o
gathered_at_nil msg_type j none = refl
gathered_at_nil msg_type j (some a) = rw (append-nil a.inputs, append-nil a.outputs)

lookup-gather :
    (msg_type : String) (j : ℕ) (rows : List BankMultiSendRow) (by_counter : GoMap ℕ Gathered)
    → lookup j (gather msg_type rows by_counter) ≡ gathered_at msg_type j rows (lookup j by_counter)
unfolding gather
lookup-gather msg_type j [] by_counter = gathered_at_nil msg_type j (lookup j by_counter)
lookup-gather msg_type j (d ∷ rows) by_counter =
    let c = d.message_counter in
    let a =
      add_entry d.direction (entry_of d)
        (Option.get_or (lookup c by_counter) (new_gathered msg_type d)) in
    lookup-gather msg_type j rows (put c a by_counter)
    ∙ ap (gathered_at msg_type j rows) (lookup-put c j a by_counter)
    ∙ (elim (Bool-cases (c == j)) [
      | inl h ↦
          let same : c ≡ j = ground arith in
          rw h (
            ap
              (λ o. some (
                extended j rows
                  (add_entry d.direction (entry_of d) (Option.get_or o (new_gathered msg_type d)))))
              (ap (λ i. lookup i by_counter) same)
            ∙ gathered_at_hit msg_type j d rows (lookup j by_counter) h)
      | inr h ↦ rw h (gathered_at_miss msg_type j d rows (lookup j by_counter) h)
    ])

finished-extended :
    (msg_type : String) (j : ℕ) (rows : List BankMultiSendRow) (o : Option BankMultiSendRow)
    → Option.map finished (Option.map (λ d. extended j rows (new_gathered msg_type d)) o)
      ≡ Option.map
          (λ d. record (message msg_type d.tx_hash d.timestamp d.signers) {
            inputs = entries false j rows;
            outputs = entries true j rows;
          })
          o
finished-extended msg_type j rows none = refl
finished-extended msg_type j rows (some d) = refl

-- After the rows of the multi-sends are stored, a message counter that one of them has holds one
-- message: the fields of its first row, the entries with direction false as inputs and those with
-- direction true as outputs, each in the order of the rows. Another counter holds what it held.
pub lookup-store_multi_sends :
    (msg_type : String) (j : ℕ) (rows : List BankMultiSendRow) (response : Messages)
    → lookup j (store_multi_sends msg_type rows response)
      ≡ or_else (multi_send_message msg_type j rows) (lookup j response)
unfolding store_multi_sends
lookup-store_multi_sends msg_type j rows response =
    lookup-copy j response (finish_all (gather msg_type rows []))
    ∙ ap (λ o. or_else o (lookup j response))
        (lookup-finish_all j (gather msg_type rows [])
          ∙ ap (Option.map finished) (lookup-gather msg_type j rows [])
          ∙ (unfold lookup in finished-extended msg_type j rows (first_at j rows)))

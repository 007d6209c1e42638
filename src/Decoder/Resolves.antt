-- ===== src/Decoder/Resolves.antt =====
-- The addresses of the rows are among those that were resolved in one batch beforehand.
use spectra_gnoland_indexer.Common.{
  ℕ, suc, String, ◌≡◌, refl, subst, Bool, true, false, inl, inr, List, [], ◌∷◌, ◌++◌, map, Result,
  ok, err, insert_key, insert_keys, contains, contains-insert_keys, string_comparable,
  nat_comparable, ltb, ◌==◌, arith, Bool-cases, Option-cases, eq_iff,
}
use spectra_gnoland_indexer.Schema.{TxAddresses, add_address, add_all, new_tx_addresses}
use spectra_gnoland_indexer.Schema.Rows.{Message, get_all_addresses}
use spectra_gnoland_indexer.Decoder.{
  Party, StdMsg, DecodedMsg, send, multi_send, call, add_package, run, create_session,
  revoke_session, revoke_all_sessions, unregistered, Strings,
}
use spectra_gnoland_indexer.Decoder.Registry.{ConvCtx, type_name, addresses, convert, party_row}
use spectra_gnoland_indexer.Decoder.Product.{
  DbMessages, add_rows, add_message_addresses, collect_all_addresses, convert_from,
  convert_to_db_messages, ConvertError,
}

module _ (known : List String) (resolver : String → ℕ) where
  -- the id of an address of the batch
  abbrev IsFrom : ℕ → Type 0
  IsFrom id = (a : String) × (contains a known ≡ true) × (resolver a ≡ id)

  abbrev AllFrom : List ℕ → Type 0
  AllFrom [] = Unit
  AllFrom (id ∷ ids) = IsFrom id × AllFrom ids

  abbrev AllKnown : List String → Type 0
  AllKnown [] = Unit
  AllKnown (a ∷ rest) = (contains a known ≡ true) × AllKnown rest

  abbrev RowsFrom : List Message → Type 0
  RowsFrom [] = Unit
  RowsFrom (r ∷ rs) = AllFrom (get_all_addresses r).addresses × RowsFrom rs

  insert_key-AllFrom :
      (id : ℕ) (ids : List ℕ) → IsFrom id → AllFrom ids → AllFrom (insert_key id ids)
  insert_key-AllFrom id [] f h = (f, tt)
  insert_key-AllFrom id (x ∷ ids) f (g, h) = elim (Bool-cases (x == id)) [
    | inl t ↦ rw t (g, h)
    | inr n ↦ rw n (g, insert_key-AllFrom id ids f h)
  ]

  add_all-AllFrom :
      (ids : List ℕ) (ta : TxAddresses)
      → AllFrom ids
      → AllFrom ta.addresses
      → AllFrom (add_all ids ta).addresses
  unfolding add_all
  add_all-AllFrom [] ta h k = k
  add_all-AllFrom (id ∷ ids) ta (f, h) k =
      add_all-AllFrom ids (add_address id ta) h (insert_key-AllFrom id ta.addresses f k)

  map-AllFrom : (xs : List String) → AllKnown xs → AllFrom (map resolver xs)
  map-AllFrom [] h = tt
  map-AllFrom (x ∷ xs) (k, h) = ((x, k, refl), map-AllFrom xs h)

  AllKnown-append : (xs ys : List String) → AllKnown (xs ++ ys) → AllKnown xs × AllKnown ys
  AllKnown-append [] ys h = (tt, h)
  AllKnown-append (x ∷ xs) ys (k, h) = let (l, r) = AllKnown-append xs ys h in ((k, l), r)

  RowsFrom-append : (xs ys : List Message) → RowsFrom xs → RowsFrom ys → RowsFrom (xs ++ ys)
  RowsFrom-append [] ys h k = k
  RowsFrom-append (x ∷ xs) ys (g, h) k = (g, RowsFrom-append xs ys h k)

  known-AllKnown :
      (xs : List String)
      → ((a : String) → contains a xs ≡ true → contains a known ≡ true)
      → AllKnown xs
  known-AllKnown [] h = tt
  known-AllKnown (x ∷ xs) h =
      (h x (ground (arith, eq_iff x x)), known-AllKnown xs (λ a c. h a (ground (arith, c))))

  abbrev AllMessages : List StdMsg → Type 0
  AllMessages [] = Unit
  AllMessages (m ∷ ms) = AllKnown (addresses m) × AllMessages ms

  AreKnown : List String → Type 0
  AreKnown s = (a : String) → contains a s ≡ true → contains a known ≡ true

  add_message_addresses-AllMessages :
      (ms : List StdMsg) (s : List String)
      → AreKnown (add_message_addresses ms s)
      → AllMessages ms × AreKnown s
  unfolding add_message_addresses AreKnown
  add_message_addresses-AllMessages [] s h = (tt, h)
  add_message_addresses-AllMessages (m ∷ ms) s h =
      let (all, k) = add_message_addresses-AllMessages ms (insert_keys (addresses m) s) h in
      (
        (
          known-AllKnown (addresses m)
              (λ a c. k a (ground (arith, contains-insert_keys (addresses m) a s, c))),
          all,
        ),
        λ a c. k a (ground (arith, contains-insert_keys (addresses m) a s, c)),
      )

  abbrev pub IsResolved : DbMessages → Type 0
  IsResolved [] = Unit
  IsResolved (r ∷ rs) = AllFrom r.addresses.addresses × IsResolved rs

  add_rows-IsResolved :
      (rows : List Message) (chain_name : String) (timestamp : ℕ) (out : DbMessages)
      → RowsFrom rows
      → IsResolved out
      → IsResolved (add_rows rows chain_name timestamp out)
  add_rows-IsResolved [] c t [] h k = tt
  add_rows-IsResolved (r ∷ rows) c t [] (g, h) k = (g, add_rows-IsResolved rows c t [] h tt)
  add_rows-IsResolved rows c t (r ∷ out) h (g, k) = (g, add_rows-IsResolved rows c t out h k)

  abbrev IfOk : Result ConvertError DbMessages → Type 0
  IfOk (ok out) = IsResolved out
  IfOk (err e) = Unit

  module _ (strings : Strings) (tx_id : ℕ) (chain_name : String) (timestamp : ℕ)
      (signer_ids : List ℕ) (signers : AllFrom signer_ids) where
    abbrev ctx : ℕ → ConvCtx
    ctx i = record {
      tx_id = tx_id;
      chain_name = chain_name;
      timestamp = timestamp;
      resolver = resolver;
      signer_ids = signer_ids;
      message_counter = i;
    }

    party_row-RowsFrom :
        (i : ℕ) (d : Bool) (ps : List Party)
        → AllKnown (map (λ p. p.address) ps)
        → RowsFrom (map (party_row strings (ctx i) d) ps)
    unfolding get_all_addresses
    party_row-RowsFrom i d [] h = tt
    party_row-RowsFrom i d (p ∷ ps) (a, h) =
        (((p.address, a, refl), tt), party_row-RowsFrom i d ps h)

    one :
        (a : String) (ta : TxAddresses)
        → contains a known ≡ true
        → AllFrom ta.addresses
        → AllFrom (add_all signer_ids (add_address (resolver a) ta)).addresses
    one a ta k h =
        add_all-AllFrom signer_ids (add_address (resolver a) ta) signers
          (insert_key-AllFrom (resolver a) ta.addresses (a, k, refl) h)

    convert-RowsFrom :
        (i : ℕ) (m : StdMsg) → AllKnown (addresses m) → RowsFrom (convert strings m (ctx i))
    unfolding addresses convert get_all_addresses
    convert-RowsFrom i (send m) (a, (b, h)) = (
      let from = add_address (resolver m.from_address) (new_tx_addresses tx_id) in
          elim (Bool-cases (resolver m.to_address == 0)) [
            | inl t ↦ rw t (one m.from_address (new_tx_addresses tx_id) a tt)
            | inr n ↦ rw n (one m.to_address from b ((m.from_address, a, refl), tt))
          ],
      tt,
    )
    convert-RowsFrom i (multi_send m) h =
        let (ins, outs) =
          AllKnown-append (map (λ p. p.address) m.inputs) (map (λ p. p.address) m.outputs) h in
        RowsFrom-append (map (party_row strings (ctx i) false) m.inputs)
          (map (party_row strings (ctx i) true) m.outputs) (party_row-RowsFrom i false m.inputs ins)
          (party_row-RowsFrom i true m.outputs outs)
    convert-RowsFrom i (call m) (a, h) = (one m.caller (new_tx_addresses tx_id) a tt, tt)
    convert-RowsFrom i (add_package m) (a, h) = (one m.creator (new_tx_addresses tx_id) a tt, tt)
    convert-RowsFrom i (run m) (a, h) = (one m.caller (new_tx_addresses tx_id) a tt, tt)
    convert-RowsFrom i (create_session m) (a, (b, h)) = (
      one m.session_key (add_address (resolver m.creator) (new_tx_addresses tx_id)) b
          ((m.creator, a, refl), tt),
      tt,
    )
    convert-RowsFrom i (revoke_session m) (a, (b, h)) = (
      one m.session_key (add_address (resolver m.creator) (new_tx_addresses tx_id)) b
          ((m.creator, a, refl), tt),
      tt,
    )
    convert-RowsFrom i (revoke_all_sessions m) (a, h) =
        (one m.creator (new_tx_addresses tx_id) a tt, tt)
    convert-RowsFrom i (unregistered t) h = tt

    convert_from-IfOk :
        (ms : List StdMsg) (i : ℕ) (out : DbMessages)
        → AllMessages ms
        → IsResolved out
        → IfOk (convert_from strings resolver tx_id chain_name timestamp signer_ids i ms out)
    unfolding convert_from
    convert_from-IfOk [] i out h k = k
    convert_from-IfOk (m ∷ ms) i out (g, h) k = elim (Bool-cases (ltb 32767 i)) [
      | inl t ↦ rw t tt
      | inr n ↦ elim (Option-cases (type_name m)) [
        | inl e ↦ rw (n, e) tt
        | inr (t, e) ↦
            rw (n, e)
              (convert_from-IfOk ms (suc i) _ h (
                add_rows-IsResolved (convert strings m (ctx i)) chain_name timestamp out
                  (convert-RowsFrom i m g) k))
      ]
    ]

-- If the conversion of a transaction succeeds, then every address id that a row reports for the
-- address_tx table is what the resolver gives for one of the addresses that CollectAllAddresses
-- returned, so that resolving those in one batch beforehand resolves every row.
pub convert_to_db_messages-IsResolved :
    (strings : Strings) (resolver : String → ℕ) (tx_id : ℕ) (chain_name : String) (timestamp : ℕ)
    (dm : DecodedMsg) (out : DbMessages)
    → convert_to_db_messages strings resolver tx_id chain_name timestamp dm dm.basic_data.signers
      ≡ ok out
    → IsResolved (collect_all_addresses dm) resolver out
unfolding convert_to_db_messages collect_all_addresses AreKnown
convert_to_db_messages-IsResolved strings resolver tx_id chain_name timestamp dm out e =
    let known = collect_all_addresses dm in
    let (all, k) =
      add_message_addresses-AllMessages known resolver dm.msgs
        (insert_keys dm.basic_data.signers []) (λ a c. c) in
    let signers =
      known-AllKnown known resolver dm.basic_data.signers
        (λ a c. k a (ground (arith, contains-insert_keys dm.basic_data.signers a [], c))) in
    subst (IfOk known resolver) e (
      convert_from-IfOk known resolver strings tx_id chain_name timestamp _
        (map-AllFrom known resolver dm.basic_data.signers signers) dm.msgs 0 [] all tt)

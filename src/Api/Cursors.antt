-- ===== src/Api/Cursors.antt =====
-- api/handlers/transactions.go: `makeTxCursor`, and its round trip through `decodeCursor`.
use spectra_gnoland_indexer.Common.{
  ℕ, ◌<◌, ◌≡◌, refl, ◌∙◌, Option, none, some, List, [], ◌∷◌, ◌++◌, ok, format_uint,
  parse_codes-format_uint, format_uint-Without, Without, split_two, u64_mod, arith,
}
use spectra_gnoland_indexer.Timescale.{
  Encodings, decode_cursor, cursor_parts, unmarshal_cursor_param, decode_cursor_parts,
}

module _ (base64 : Encodings) where
  open base64 use {std_encode, std_decode, url_encode, url_decode}

  -- `none` if the hash is no base64
  unfoldable pub make_tx_cursor : ℕ → List ℕ → Option (List ℕ)
  make_tx_cursor block_height tx_hash = elim (std_decode tx_hash) [
    | none ↦ none
    | some raw ↦ some (format_uint block_height ++ b'|' ∷ url_encode raw)
  ]

-- What the cursors rely on: URL-safe base64 decodes what it encodes, and has no "|".
pub record IsBase64 (base64 : Encodings) : Type 0 where
  pub url_round : (raw : List ℕ) → base64.url_decode (base64.url_encode raw) ≡ some raw
  pub no_bar : (raw : List ℕ) → Without b'|' (base64.url_encode raw)

decode_cursor_nonempty :
    (base64 : Encodings) (a b : List ℕ) (c : ℕ)
    → decode_cursor base64 (some (a ++ c ∷ b))
      ≡ decode_cursor_parts base64 (unmarshal_cursor_param (a ++ c ∷ b))
unfolding decode_cursor
decode_cursor_nonempty base64 [] b c = refl
decode_cursor_nonempty base64 (x ∷ a) b c = refl

module _ (base64 : Encodings) (laws : IsBase64 base64) where
  open base64 use {std_decode, url_encode}

  -- The cursor that makeTxCursor makes of a height below 2^64 and of the base64 text of a hash is
  -- decoded by decodeCursor to that height and the bytes of that hash.
  pub decode_cursor-make_tx_cursor :
      (h : ℕ) (tx_hash raw : List ℕ)
      → h < u64_mod
      → std_decode tx_hash ≡ some raw
      → (cursor : List ℕ) × (make_tx_cursor base64 h tx_hash ≡ some cursor)
        × (decode_cursor base64 (some cursor) ≡ ok (some (h, raw)))
  unfolding make_tx_cursor unmarshal_cursor_param cursor_parts decode_cursor_parts
  decode_cursor-make_tx_cursor h tx_hash raw lt d = (
    format_uint h ++ b'|' ∷ url_encode raw,
    rw (make_tx_cursor, d),
    decode_cursor_nonempty base64 (format_uint h) (url_encode raw) b'|' ∙ decoded,
  )
    where
      decoded :
          decode_cursor_parts base64
            (unmarshal_cursor_param (format_uint h ++ b'|' ∷ url_encode raw))
          ≡ ok (some (h, raw))
      decoded = rw (
        split_two b'|' (format_uint h) (url_encode raw) (format_uint-Without h b'|' (omega arith))
            (laws.no_bar raw),
        cursor_parts,
        parse_codes-format_uint h lt,
        decode_cursor_parts,
        laws.url_round raw,
      )

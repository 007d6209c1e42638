-- ===== src/Tests/Inserted.antt =====
-- Inserts at concrete values, with an encoding of bytes as texts of ones and zeros.

use spectra_gnoland_indexer.Common.{
  ℕ, zero, suc, ◌+◌, ◌≡◌, String, refl, ap, sym, ◌∙◌, Bool, true, Option, some, List, [], ◌∷◌, map,
  arith, lookup, GoMap, codes, text_of, AreAscii, codes-text_of, if◌then◌else◌, ◌==◌,
  string_comparable, put,
}
use spectra_gnoland_indexer.Schema.Rows.{Message, table_name, get_all_addresses}
use spectra_gnoland_indexer.Decoder.Registry.{convert}
use spectra_gnoland_indexer.Schema.Copy.{message}
use spectra_gnoland_indexer.Decoder.Product.{InsertBatch, insert_batches}
use spectra_gnoland_indexer.Timescale.Inserts.{
  CopyCommand, HashTexts, TxIdRows, insert_rows, insert_tx_hash_ids, decode_hashes,
}
use spectra_gnoland_indexer.Timescale.HashIds.{
  all_some, last_id, IsInjective, insert_tx_hash_ids-last_id,
}
use spectra_gnoland_indexer.Timescale.Written.{AllFit, command, insert_rows-insert_batches}
use spectra_gnoland_indexer.Tests.Processing.{sent_rows}

-- `n` ones and a zero before the rest
abbrev ones : ℕ → List ℕ → List ℕ
ones zero rest = b'0' ∷ rest
ones (suc n) rest = b'1' ∷ ones n rest

abbrev unary : List ℕ → List ℕ
unary [] = []
unary (n ∷ bytes) = ones n (unary bytes)

abbrev read : ℕ → List ℕ → List ℕ
read n [] = []
read n (c ∷ s) = if c == b'0' then n ∷ read 0 s else read (suc n) s

ones-AreAscii : (n : ℕ) (rest : List ℕ) → AreAscii rest → AreAscii (ones n rest)
ones-AreAscii zero rest h = (omega arith, h)
ones-AreAscii (suc n) rest h = (omega arith, ones-AreAscii n rest h)

unary-AreAscii : (bytes : List ℕ) → AreAscii (unary bytes)
unary-AreAscii [] = tt
unary-AreAscii (n ∷ bytes) = ones-AreAscii n (unary bytes) (unary-AreAscii bytes)

read-ones : (n m : ℕ) (rest : List ℕ) → read m (ones n rest) ≡ (m + n) ∷ read 0 rest
read-ones zero m rest = let same : m + 0 ≡ m = omega arith in rw same
read-ones (suc n) m rest =
    let same : suc m + n ≡ m + suc n = omega arith in
    read-ones n (suc m) rest ∙ ap (λ k. k ∷ read 0 rest) same

read-unary : (bytes : List ℕ) → read 0 (unary bytes) ≡ bytes
read-unary [] = refl
read-unary (n ∷ bytes) =
    let same : 0 + n ≡ n = omega arith in read-ones n 0 (unary bytes) ∙ rw (same, read-unary bytes)

abbrev texts : HashTexts
texts = record {
  decode_string = λ s. some (read 0 (codes s));
  encode_to_string = λ bytes. text_of (unary bytes);
}

decoded-encoded : (bytes : List ℕ) → read 0 (codes (text_of (unary bytes))) ≡ bytes
decoded-encoded bytes =
    ap (read 0) (codes-text_of (unary bytes) (unary-AreAscii bytes)) ∙ read-unary bytes

texts-IsInjective : IsInjective texts
texts-IsInjective a b e = sym (decoded-encoded a) ∙ ap (λ s. read 0 (codes s)) e ∙ decoded-encoded b

abbrev answer : List (List ℕ) → List ℕ → String → ℕ → Option TxIdRows × ℕ
answer hashes times chain w = (
  some (record { rows = all_some ((1 ∷ [], 7) ∷ (2 ∷ [], 8) ∷ (1 ∷ [], 9) ∷ []); complete = true }),
  suc w,
)

insert_tx_hash_ids-last_id_example :
    (m : GoMap String ℕ) × (insert_tx_hash_ids texts answer ("10" ∷ "110" ∷ []) (5 ∷ 5 ∷ []) "gno" 0
      ≡ (some m, 1))
    × ((hash : List ℕ)
        → lookup (text_of (unary hash)) m
          ≡ last_id hash ((1 ∷ [], 7) ∷ (2 ∷ [], 8) ∷ (1 ∷ [], 9) ∷ []))
unfolding decode_hashes
insert_tx_hash_ids-last_id_example =
    insert_tx_hash_ids-last_id texts answer texts-IsInjective ("10" ∷ "110" ∷ []) (5 ∷ 5 ∷ []) "gno"
      ((1 ∷ []) ∷ (2 ∷ []) ∷ []) ((1 ∷ [], 7) ∷ (2 ∷ [], 8) ∷ (1 ∷ [], 9) ∷ []) 0 1 (omega arith)
      refl refl refl

-- the world is what was copied
abbrev copy_from : CopyCommand String → List (CopyCommand String) → Bool × List (CopyCommand String)
copy_from c w = (true, c ∷ w)

abbrev batch : InsertBatch
batch = record { rows = map (λ r. r.row) sent_rows; tx_ids = map (λ r. 5) sent_rows }

insert_rows-insert_batches_example :
    (row : Message) × (rows : List Message) × (batch.rows ≡ row ∷ rows)
    × (insert_rows copy_from (map message batch.rows) [] ≡ copy_from (command String row rows) [])
    × AllFit String (command String row rows) batch.rows
unfolding insert_batches convert lookup put table_name get_all_addresses
insert_rows-insert_batches_example =
    insert_rows-insert_batches String copy_from sent_rows (batch ∷ []) 0 batch [] refl refl
      (omega arith)

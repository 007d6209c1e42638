-- ===== src/Timescale.antt =====
-- pkgs/database/timescaledb: the cursors of the paged queries (queries_address.go), and the queries
-- as the values that reach the database. A text that is taken apart is a list of codes.
pub mod Pages
pub mod Types
pub mod Views
pub mod Volumes
pub mod Pool
pub mod Quoted
pub mod Reverse
pub mod Answers
pub mod Served
pub mod Blocks
pub mod Events
pub mod ReadBack
pub mod Inserts
pub mod Written
pub mod HashIds
pub mod Messages
mod Accounts
mod Averages
use spectra_gnoland_indexer.Common.{
  ℕ, String, Bool, true, false, Option, none, some, List, [], ◌∷◌, Result, ok, err, parse_codes,
  split,
}

-- what the queries report: `database.ErrNotFound`, or any other error
pub data DbError : Type 0 where
  not_found : DbError
  failure : DbError

-- base64.StdEncoding and base64.URLEncoding.Strict
pub record Encodings : Type 0 where
  pub std_encode : List ℕ → List ℕ
  pub std_decode : List ℕ → Option (List ℕ)
  pub url_encode : List ℕ → List ℕ
  pub url_decode : List ℕ → Option (List ℕ)

-- (block_height, tx_hash), the key that the pages are ordered by
abbrev pub SeekKey : Type 0
SeekKey = ℕ × List ℕ

-- the parts of `SELECT ... WHERE ... AND (block_height, tx_hash) < ($, $) ORDER BY ... LIMIT $`
pub data Seek : Type 0 where
  anywhere : Seek
  before : SeekKey → Seek
  after : SeekKey → Seek

pub record Select : Type 0 where
  pub chain_name : String
  pub address : Option ℕ
  pub seek : Seek
  pub between : Option (ℕ × ℕ)
  pub ascending : Bool
  pub limit : ℕ

-- the two parts of a cursor
unfoldable pub cursor_parts : List (List ℕ) → Result DbError (ℕ × List ℕ)
cursor_parts (height ∷ hash ∷ []) = elim (parse_codes height) [
  | none ↦ err failure
  | some block_height ↦ ok (block_height, hash)
]
cursor_parts _ = err failure

unfoldable pub unmarshal_cursor_param : List ℕ → Result DbError (ℕ × List ℕ)
unmarshal_cursor_param cursor = cursor_parts (split b'|' cursor)

module _ (base64 : Encodings) where
  open base64 use {url_decode}

  unfoldable pub decode_cursor_parts : Result DbError (ℕ × List ℕ) → Result DbError (Option SeekKey)
  decode_cursor_parts (err e) = err e
  decode_cursor_parts (ok (block_height, tx_hash)) = elim (url_decode tx_hash) [
    | none ↦ err failure
    | some decoded ↦ ok (some (block_height, decoded))
  ]

  -- `none` where no cursor is present
  unfoldable pub decode_cursor : Option (List ℕ) → Result DbError (Option SeekKey)
  decode_cursor none = ok none
  decode_cursor (some []) = ok none
  decode_cursor (some (c ∷ cursor)) = decode_cursor_parts (unmarshal_cursor_param (c ∷ cursor))

-- ===== src/Rpc.antt =====
-- indexer/rpc_client: the responses of the node that the indexer reads (blocks.go, commit.go,
-- transactions.go). A struct keeps the fields that the program reads; a pointer is an `Option`, and
-- a time is a number. The helper methods take the pointer, which may be nil.
pub mod Block
pub mod Commits
pub mod Tx
use spectra_gnoland_indexer.Common.{
  ℕ, String, Bool, true, false, Option, none, some, List, [], parse_uint,
}

pub record BlockId : Type 0 where
  pub hash : String

pub record BlockHeader : Type 0 where
  pub chain_id : String
  pub height : String
  pub time : ℕ
  pub proposer_address : String

-- `txs` can be nil
pub record BlockData : Type 0 where
  pub txs : Option (List String)

pub record Precommit : Type 0 where
  pub validator_address : String

pub record LastCommit : Type 0 where
  pub precommits : List (Option Precommit)

pub record BlockMeta : Type 0 where
  pub block_id : BlockId

pub record BlockInfo : Type 0 where
  pub header : BlockHeader
  pub block_data : BlockData
  pub last_commit : LastCommit

pub record BlockResult : Type 0 where
  pub block_meta : BlockMeta
  pub block : BlockInfo

pub record BlockResponse : Type 0 where
  pub error : Option String
  pub result : BlockResult

pub record Commit : Type 0 where
  pub precommits : List (Option Precommit)

pub record SignedHeader : Type 0 where
  pub header : BlockHeader
  pub commit : Commit

pub record CommitResult : Type 0 where
  pub signed_header : SignedHeader

pub record CommitResponse : Type 0 where
  pub error : Option String
  pub result : CommitResult

pub record EventAttribute : Type 0 where
  pub key : String
  pub value : String

pub record RpcEvent : Type 0 where
  pub at_type : String
  pub type : String
  pub attrs : List EventAttribute
  pub pkg_path : String

-- `log` is a list of bytes, since the program cuts it by bytes
pub record ResponseBase : Type 0 where
  pub error : Option String
  pub events : List RpcEvent
  pub log : List ℕ

pub record TxResult : Type 0 where
  pub response_base : ResponseBase
  pub gas_wanted : String
  pub gas_used : String

pub record TxResultData : Type 0 where
  pub hash : String
  pub height : String
  pub index : ℕ
  pub tx_result : TxResult
  pub tx : String

pub record TxResponse : Type 0 where
  pub error : Option String
  pub result : TxResultData

-- the zero `time.Time`
abbrev pub zero_time : ℕ
zero_time = 0

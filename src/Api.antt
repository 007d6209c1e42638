-- ===== src/Api.antt =====
-- api/handlers/errors.go: the HTTP errors of the handlers.
pub mod Cursors
pub mod Bodies
pub mod Transactions
pub mod Walks
pub mod Back
pub mod Messages
pub mod Dispatch
pub mod Responses
pub mod Masked
pub mod Given
pub mod Stored
pub mod Ranges
pub mod Volumes
pub mod Constants
use spectra_gnoland_indexer.Common.{String}
use spectra_gnoland_indexer.Timescale.{DbError}

pub data HttpError : Type 0 where
  bad_request : String → HttpError
  not_found : String → HttpError
  internal_error : HttpError

unfoldable pub map_db_error : String → DbError → HttpError
map_db_error message DbError.not_found = not_found message
map_db_error message DbError.failure = internal_error

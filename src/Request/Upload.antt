-- ===== src/Request/Upload.antt =====
-- SaveUploadFile and SaveUploadFileWith of core/context.go.
use gin_t.Common.{ℕ, Option, none, some, List, []}
use gin_t.Text.{Bytes}
use gin_t.Outcome.{Outcome, ok, ◌>>=◌}
use gin_t.Blueprint.Store.{Store, file_storage, find_service}
use gin_t.Request.{current_blueprint}

-- What Request.FormFile finds: an error, or a file with the error of its Close.
pub data FormFile (F E : Type 0) : Type 0 where
  no_file : E → FormFile F E
  opened : F → Option E → FormFile F E

pub data UploadError (E : Type 0) : Type 0 where
  nil_storage : UploadError E
  not_read not_saved : E → UploadError E

abbrev saved_as : {E : Type 0} → Bytes × Option E → Bytes × Option (UploadError E)
saved_as (path, none) = (path, none)
saved_as (path, some e) = (path, some (not_saved e))

module _ {F E : Type 0} where
  -- a storage is its Save, or `none` if it is nil
  unfoldable save_upload_file_with :
      Option (F → Outcome (Bytes × Option E))
      → FormFile F E
      → Outcome (Bytes × Option (UploadError E))
  save_upload_file_with none file = ok ([], some nil_storage)
  save_upload_file_with (some save) (no_file e) = ok ([], some (not_read e))
  save_upload_file_with (some save) (opened header (some e)) = ok ([], some (not_read e))
  save_upload_file_with (some save) (opened header none) = do
    saved ← save header
    ok (saved_as saved)

  abbrev storage_at :
      (ℕ → F → Outcome (Bytes × Option E)) → Option ℕ → Option (F → Outcome (Bytes × Option E))
  storage_at saves none = none
  storage_at saves (some a) = some (saves a)

  unfoldable save_upload_file :
      {H : Type 0}
      → ℕ
      → Store H
      → List ℕ
      → ℕ
      → (ℕ → F → Outcome (Bytes × Option E))
      → FormFile F E
      → Outcome (Bytes × Option (UploadError E))
  unfolding current_blueprint find_service save_upload_file_with
  save_upload_file fuel w blueprints i saves file = do
    b ← current_blueprint blueprints i
    found ← find_service fuel w b file_storage
    save_upload_file_with (storage_at saves found) file

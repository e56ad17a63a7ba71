-- ===== src/Tests/OperationsTests.antt =====
-- The operations of the store on the small service and the small database.
use castella.Prelude.{
  false, ℕ, ◌-◌, ◌≡◌, ◌≤◌, refl, [], ◌∷◌, none, some, Option, ok, Bytes, take, drop, concat, length,
  ◌==◌, arith, if◌then◌else◌,
}
use castella.Prelude.Ranges.{RangeBounds, included}
use castella.Stream.Flow.{bytes_of, failure}
use castella.Stream.Concrete.{futures, bytes_library, stream_reader}
use castella.Drive
use castella.Drive.{FileResponse, get_file, create_file}
use castella.Db.{Server, get_drive_by_least_files, get_file_by_key, delete_file_by_key}
use castella.Db.Rows.{connection, File, count_files, select_file, touch_files, least_files}
use castella.Db.Placement.{OneOf, AllDrives}
use castella.Store.Concrete.{toy_aead}
use castella.Store.Cipher.{new, get_chunk_nonce}
use castella.Store.Layout.{encrypted_range, chunk_range, requested_range, encrypted_size}
use castella.Store.Layout.Bounds.{IsWithin}
use castella.Store.CipherStream.Content.{seal_all}
use castella.Stream.Chunk.Pieces.{pieces}
use castella.Store.Content.Sealed.{sealed_file}
use castella.Store.Operations.{
  Store, Random, drive_max_file_limit, allocate_file, file_data, encrypted_request, get, get_info,
  delete,
}
use castella.Store.Operations.Reading.{get_reads}
use castella.Store.Operations.Allocation.{allocate_file_found}
use castella.Store.Operations.Deletion.{healthy, delete-get_info}
use castella.Tests.Service.{service, secret, row, tables, no_drives, free_drive}

abbrev Failure : Type 0
Failure = Drive.Error ℕ ℕ ℕ

abbrev plain : Bytes
plain = 10 ∷ 11 ∷ 12 ∷ 13 ∷ 14 ∷ []

abbrev stored : Bytes
stored = concat (sealed_file toy_aead (new secret) plain)

abbrev store : Store Bytes
store = record { tables = tables; remote = stored }

-- The row that `get` reads, with its new access time.
abbrev read_row : File
read_row = record (row 2 2) { accessed_time = 7 }

-- The header `bytes=1-2`.
abbrev wanted : Option RangeBounds
wanted = some (record { start_bound = included 1; end_bound = included 2 })

abbrev response : FileResponse Failure
response = record {
  stream = ok (take 3 stored) ∷ ok (drop 3 stored) ∷ [];
  range = record { start = 0; end = 21 };
}

get_reads_example :
    let data' =
      file_data futures bytes_library toy_aead (stream_reader Failure) read_row wanted response in
    let n = data'.range.end - data'.range.start in
    ((get futures bytes_library toy_aead
        (stream_reader Failure)
        service
        (healthy 7)
        2
        wanted
        store).0
      ≡ ok (some data'))
    × (data'.info ≡ read_row)
    × IsWithin (length plain) data'.range
    × (take n (bytes_of data'.content) ≡ take n (drop data'.range.start plain))
    × (failure data'.content ≡ none)
unfolding get_file get_file_by_key encrypted_request seal_all pieces toy_aead new get_chunk_nonce
    select_file touch_files encrypted_range chunk_range requested_range encrypted_size
get_reads_example =
    get_reads futures bytes_library toy_aead (stream_reader Failure) service (healthy 7) 2 wanted
      store read_row response plain refl refl refl (omega arith) (omega arith) refl refl

abbrev random : Random
random = record {
  request_id = 1 ∷ [];
  drive_name = 2 ∷ [];
  boundary = 3 ∷ [];
  file_name = 4 ∷ [];
  secret = secret;
}

allocate_file_found_example :
    (allocate_file service random (healthy 7) (healthy 7) store ≡ (ok free_drive, store))
    × OneOf free_drive tables.drives
    × (count_files 2 tables.files ≤ drive_max_file_limit)
    × AllDrives (λ e. count_files 2 tables.files ≤ count_files e.key tables.files) tables.drives
unfolding get_drive_by_least_files least_files
allocate_file_found_example =
    allocate_file_found service random (healthy 7) (healthy 7) store free_drive refl

abbrev fresh : Store Bytes
fresh = record { tables = no_drives; remote = [] }

delete-get_info_example :
    let s' = (delete service (healthy 7) 2 store).1 in
    ((get_info {D = Failure} (healthy 8) 2 s').0 ≡ ok none)
    × ((j : ℕ)
        → (get_info {D = Failure} (healthy 8) j s').0
          ≡ ok (if j == 2 then none else select_file j tables.files))
unfolding delete_file_by_key
delete-get_info_example =
    delete-get_info service (healthy 7) 2 8 store (omega arith, (omega arith, (omega arith, tt)))
      refl

-- The last commit fails.
abbrev failing : Server
failing = record {
  now = 7;
  begin = none;
  statement = none;
  commit = some (connection 1);
  lost = false;
}

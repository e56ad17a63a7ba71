-- ===== src/Tests/VaultTests.antt =====
-- The map that a store represents, over the concrete service.
use castella.Prelude.{
  ℕ, ◌≡◌, refl, sym, ap, ◌∙◌, [], ◌∷◌, Option, none, some, Result, ok, Bytes, concat, take, drop,
  true, false, arith,
}
use castella.Prelude.Ranges.{RangeBounds, included}
use castella.Stream.Flow.{Stream, failure}
use castella.Stream.Concrete.{futures, bytes_library, stream_reader}
use castella.Stream.Bandwidth
use castella.Drive
use castella.Drive.{FileResponse, create_file, get_file}
use castella.Drive.Concrete.{Files, concrete_remote, concrete_service, concrete-IsSized}
use castella.Db.{Server, add_file, get_file_by_key, get_drive_by_least_files}
use castella.Db.Rows.{File, select_file, touch_files, insert_file, least_files, connection}
use castella.Db.Files.{row_of}
use castella.Store.Concrete.{toy_aead}
use castella.Store.Cipher.{new, encrypt, get_chunk_nonce}
use castella.Store.CipherStream.Content.{seal_all}
use castella.Store.Layout.{encrypted_range, chunk_range, requested_range, encrypted_size}
use castella.Store.Content.{upload_stream}
use castella.Store.CipherStream.{encrypt_stream}
use castella.Stream.Chunk.{chunk_stream}
use castella.Stream.Bandwidth.{throttle_stream}
use castella.Text.{decimal, split_once}
use castella.Header.{parse_single_range_header, parse_bound}
use castella.Store.Content.Sealed.{sealed_file}
use castella.Stream.Chunk.Pieces.{pieces}
use castella.Drive.Service.{occurs, delimiter}
use castella.Store.Operations.{
  Store, Random, FileData, encrypted_request, Error, allocate_file, upload, get, delete,
}
use castella.Store.Operations.Deletion.{healthy}
use castella.Store.Vault.{Document, document, Vault, update, Represents}
use castella.Store.Vault.Answers.{Answers, IsPart, get-Answers, get-IsPart}
use castella.Store.Vault.Reading.{get-Represents}
use castella.Store.Vault.Writing.{upload-Represents, upload_failed-Represents}
use castella.Store.Vault.Removing.{removed, delete-Represents}
use castella.Store.Vault.RoundTrip.{empty-Represents, get-upload}
use castella.Tests.Service.{secret, free_drive}

abbrev Failure : Type 0
Failure = Drive.Error ℕ ℕ ℕ

-- One drive and no files.
abbrev empty : Store Files
empty = record {
  tables = record { drives = free_drive ∷ []; files = []; next_drive = 3; next_file = 1 };
  remote = [];
}

abbrev nothing : Vault
nothing key = none

empty_fits : Represents toy_aead concrete_service empty nothing
empty_fits = empty-Represents toy_aead concrete_service empty refl

abbrev random : Random
random = record {
  request_id = 1 ∷ [];
  drive_name = 2 ∷ [];
  boundary = 45 ∷ 45 ∷ [];
  file_name = 4 ∷ [];
  secret = secret;
}

abbrev content : Stream ℕ Bytes
content = ok (10 ∷ 11 ∷ 12 ∷ []) ∷ ok (13 ∷ 14 ∷ 15 ∷ []) ∷ []

abbrev uploaded : Server → Result (Error Failure) File × Store Files
uploaded adding =
    upload futures toy_aead (stream_reader ℕ) concrete_remote random (healthy 7) (healthy 7) adding
      (Bandwidth.new 1048576) 5 (97 ∷ []) content empty

abbrev added : File
added = row_of 7 (0 ∷ []) 2 5 (97 ∷ []) secret empty.tables

upload_run : (uploaded (healthy 7)).0 ≡ ok added
unfolding upload allocate_file get_drive_by_least_files least_files create_file add_file insert_file
    concrete_remote
upload_run = refl

no_delimiter :
    occurs
      (delimiter random.boundary)
      (concat (sealed_file toy_aead (new secret) (document 5 (97 ∷ []) content).plain))
    ≡ false
unfolding toy_aead seal_all pieces new get_chunk_nonce
no_delimiter = refl

upload-Represents_example :
    (nothing 1 ≡ none)
    × Represents toy_aead concrete_service
        (uploaded (healthy 7)).1
        (update nothing 1 (some (document 5 (97 ∷ []) content)))
upload-Represents_example =
    upload-Represents toy_aead concrete_service futures (stream_reader ℕ) random (healthy 7)
      (Bandwidth.new 1048576) 5 (97 ∷ []) content (healthy 7) (healthy 7) empty nothing empty_fits
      refl (omega arith) no_delimiter (omega arith) (omega arith) (omega arith) upload_run

-- The last commit fails.
abbrev failing : Server
failing = record {
  now = 7;
  begin = none;
  statement = none;
  commit = some (connection 1);
  lost = false;
}

upload_failed-Represents_example : Represents toy_aead concrete_service (uploaded failing).1 nothing
unfolding upload allocate_file get_drive_by_least_files least_files create_file add_file insert_file
    concrete_remote
upload_failed-Represents_example =
    upload_failed-Represents toy_aead concrete_service futures (stream_reader ℕ) random failing
      (Bandwidth.new 1048576) 5 (97 ∷ []) content (healthy 7) (healthy 7) empty nothing refl
      empty_fits refl

abbrev full : Vault
full = update nothing 1 (some (document 5 (97 ∷ []) content))

full_fits : Represents toy_aead concrete_service (uploaded (healthy 7)).1 full
full_fits =
    (upload-Represents toy_aead concrete_service futures (stream_reader ℕ) random (healthy 7)
      (Bandwidth.new 1048576) 5 (97 ∷ []) content (healthy 7) (healthy 7) empty nothing empty_fits
      refl (omega arith) no_delimiter (omega arith) (omega arith) (omega arith) upload_run).1

-- The header `bytes=1-2`.
abbrev wanted : Option RangeBounds
wanted = some (record { start_bound = included 1; end_bound = included 2 })

get-Represents_example :
    Represents toy_aead concrete_service
      (get futures bytes_library toy_aead
        (stream_reader Failure)
        concrete_remote
        (healthy 8)
        1
        wanted
        (uploaded (healthy 7)).1).1
      full
get-Represents_example =
    get-Represents toy_aead concrete_service futures bytes_library (stream_reader Failure)
      (healthy 8) 1 wanted (uploaded (healthy 7)).1 full full_fits

delete-Represents_example :
    let deleted = delete concrete_remote (healthy 8) 1 (uploaded (healthy 7)).1 in
    Represents toy_aead concrete_service deleted.1 (removed full 1 deleted.0)
delete-Represents_example =
    delete-Represents toy_aead concrete_service (healthy 8) 1 (uploaded (healthy 7)).1 full refl
      full_fits

-- The row as `get` reads it.
abbrev read_row : File
read_row = record added { accessed_time = 8 }

abbrev sealed : Bytes
sealed = concat (sealed_file toy_aead (new secret) (document 5 (97 ∷ []) content).plain)

abbrev response : FileResponse Failure
response = record {
  stream = ok (take 3 sealed) ∷ ok (drop 3 sealed) ∷ [];
  range = record { start = 0; end = 21 };
}

read_run :
    (get_file_by_key (healthy 8) 1 true (uploaded (healthy 7)).1.tables).0 ≡ ok (some read_row)
unfolding upload allocate_file get_drive_by_least_files least_files create_file add_file insert_file
    concrete_remote get_file_by_key select_file touch_files
read_run = refl

response_run :
    (get_file concrete_remote
      (record { id = read_row.id })
      (encrypted_request read_row wanted)
      (uploaded (healthy 7)).1.remote).0
    ≡ ok response
unfolding upload allocate_file get_drive_by_least_files least_files create_file add_file insert_file
    concrete_remote get_file encrypted_request encrypted_range chunk_range requested_range
    encrypted_size toy_aead seal_all pieces new get_chunk_nonce Drive.multipart_prefix
    Drive.multipart_suffix upload_stream encrypt_stream chunk_stream throttle_stream decimal encrypt
    futures stream_reader parse_single_range_header Drive.range_header split_once parse_bound
response_run = refl

get-IsPart_example :
    (data' : FileData Failure) × (doc : Document) × ((get futures bytes_library toy_aead
        (stream_reader Failure)
        concrete_remote
        (healthy 8)
        1
        wanted
        (uploaded (healthy 7)).1).0
      ≡ ok (some data'))
    × (full 1 ≡ some doc)
    × IsPart wanted doc data'
get-IsPart_example =
    get-IsPart toy_aead concrete_service futures bytes_library (stream_reader Failure)
      concrete-IsSized (healthy 8) 1 wanted (uploaded (healthy 7)).1 full read_row response
      full_fits read_run response_run refl

some_same :
    {E A : Type 0} {a b : A} → ◌≡◌ {A = Result E (Option A)} (ok (some a)) (ok (some b)) → a ≡ b
some_same h = cc

ok_same : {E A : Type 0} {a b : A} → ◌≡◌ {A = Result E A} (ok a) (ok b) → a ≡ b
ok_same h = cc

-- There is one file, and one response for it.
all_complete :
    (g : File) (r : FileResponse Failure)
    → (get_file_by_key (healthy 8) 1 true (uploaded (healthy 7)).1.tables).0 ≡ ok (some g)
    → (get_file concrete_remote
        (record { id = g.id })
        (encrypted_request g wanted)
        (uploaded (healthy 7)).1.remote).0
      ≡ ok r
    → failure r.stream ≡ none
all_complete g r found h =
    let read : read_row ≡ g = some_same (sym read_run ∙ found) in
    let answered =
      sym response_run
      ∙ ap
          (λ (f : File).
            (get_file concrete_remote (record { id = f.id }) (encrypted_request f wanted)
              (uploaded (healthy 7)).1.remote).0)
          read
      ∙ h in
    sym (ap (λ (x : FileResponse Failure). failure x.stream) (ok_same answered))

get-Answers_example :
    Answers wanted
      (full 1)
      (get futures bytes_library toy_aead
        (stream_reader Failure)
        concrete_remote
        (healthy 8)
        1
        wanted
        (uploaded (healthy 7)).1).0
get-Answers_example =
    get-Answers toy_aead concrete_service futures bytes_library (stream_reader Failure)
      concrete-IsSized (healthy 8) 1 wanted (uploaded (healthy 7)).1 full full_fits all_complete

get-upload_example :
    (data' : FileData Failure) × ((get futures bytes_library toy_aead
        (stream_reader Failure)
        concrete_remote
        (healthy 8)
        1
        wanted
        (uploaded (healthy 7)).1).0
      ≡ ok (some data'))
    × IsPart wanted (document 5 (97 ∷ []) content) data'
get-upload_example =
    get-upload toy_aead concrete_service futures bytes_library (stream_reader ℕ)
      (stream_reader Failure) random (healthy 7) (healthy 7) (healthy 7) (healthy 8)
      (Bandwidth.new 1048576) 5 (97 ∷ []) content empty concrete-IsSized nothing wanted read_row
      response empty_fits refl (omega arith) no_delimiter (omega arith) (omega arith) (omega arith)
      upload_run read_run response_run refl

-- ===== src/Tests/Service.antt =====
-- A small service and a small database, on which the theorems are applied.
use castella.Prelude.{ℕ, [], ◌∷◌, none, some, ok, Bytes, length, take, drop}
use castella.Stream.Library.{IoError}
use castella.Drive.{Remote}
use castella.Db.Rows.{Drive, File, Tables}

-- A service that keeps one file and answers every request with the whole of it.
abbrev pub service : Remote Bytes (IoError ℕ) ℕ ℕ ℕ
service = record {
  until_ready = λ w. w;
  header = λ w. (ok (66 ∷ []), w);
  send = λ request w. (
    ok (record {
      status = 200;
      content_range = none;
      content_length = some (length w);
      body = ok (take 3 w) ∷ ok (drop 3 w) ∷ [];
      id = ok (70 ∷ []);
    }),
    w,
  );
  status_error = λ n. n;
  file_meta = λ name parent content_type. ok (1 ∷ 2 ∷ []);
}

abbrev pub secret : Bytes
secret =
    0 ∷ 1 ∷ 2 ∷ 3 ∷ 4 ∷ 5 ∷ 6 ∷ 7 ∷ 0 ∷ 1 ∷ 2 ∷ 3 ∷ 4 ∷ 5 ∷ 6 ∷ 7 ∷ 0 ∷ 1 ∷ 2 ∷ 3 ∷ 4 ∷ 5 ∷ 6 ∷ 7
    ∷ 0 ∷ 1 ∷ 2 ∷ 3 ∷ 4 ∷ 5 ∷ 6 ∷ 7 ∷ 9 ∷ 1 ∷ 2 ∷ 3 ∷ 4 ∷ 5 ∷ 6 ∷ 7 ∷ 0 ∷ 1 ∷ 2 ∷ 3 ∷ 4 ∷ 5 ∷ 6 ∷ 7
    ∷ 0 ∷ 1 ∷ 2 ∷ 3 ∷ 255 ∷ 255 ∷ 255 ∷ 255 ∷ []

abbrev pub row : ℕ → ℕ → File
row key drive_key = record {
  key = key;
  id = key ∷ [];
  drive_key = drive_key;
  size = 5;
  content_type = 97 ∷ [];
  created_time = 1;
  accessed_time = 1;
  secret = secret;
}

abbrev pub full_drive : Drive
full_drive = record { key = 1; id = 1 ∷ []; created_time = 1 }

abbrev pub free_drive : Drive
free_drive = record { key = 2; id = 2 ∷ []; created_time = 1 }

-- Two drives, with two files and one.
abbrev pub tables : Tables
tables = record {
  drives = full_drive ∷ free_drive ∷ [];
  files = row 1 1 ∷ row 2 2 ∷ row 3 1 ∷ [];
  next_drive = 3;
  next_file = 4;
}

abbrev pub no_drives : Tables
no_drives = record { drives = []; files = []; next_drive = 1; next_file = 1 }

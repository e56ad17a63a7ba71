-- ===== src/Db/Files.antt =====
-- The files as a map from keys: what each method does to the file of every key.
use castella.Prelude.{
  ℕ, suc, ◌<◌, ◌≡◌, refl, ◌∙◌, [], ◌∷◌, ◌++◌, List, Option, none, some, Result, ok, Bytes, true,
  false, arith, ◌==◌, if◌then◌else◌, inl, inr, Bool-cases,
}
use castella.Text.{Text}
use castella.Db.Rows.{File, Tables, SqlError, insert_file, select_file, touch_files, delete_files}
use castella.Db.{
  Server, Error, transaction, add_file, get_file_by_key, delete_file_by_key, read_file, remove_file,
  file_add, file_get, file_delete,
}

-- The keys in use are below the sequence.
abbrev pub KeysBelow : ℕ → List File → Type 0
KeysBelow n [] = Unit
KeysBelow n (f ∷ fs) = (f.key < n) × KeysBelow n fs

abbrev pub touch_option : ℕ → Option File → Option File
touch_option now none = none
touch_option now (some f) = some (record f { accessed_time = now })

pub select-delete_files :
    (key j : ℕ) (fs : List File)
    → select_file j (delete_files key fs) ≡ (if j == key then none else select_file j fs)
unfolding select_file delete_files
select-delete_files key j [] = ground arith
select-delete_files key j (f ∷ fs) = ground (arith, select-delete_files key j fs)

pub select-touch_files :
    (now key j : ℕ) (fs : List File)
    → select_file j (touch_files now key fs)
      ≡ (if j == key then touch_option now (select_file j fs) else select_file j fs)
unfolding select_file touch_files
select-touch_files now key j [] = ground arith
select-touch_files now key j (f ∷ fs) = ground (arith, select-touch_files now key j fs)

select-append :
    (n j : ℕ) (fs : List File) (row : File)
    → KeysBelow n fs
    → row.key ≡ n
    → select_file j (fs ++ row ∷ []) ≡ (if j == n then some row else select_file j fs)
unfolding select_file
select-append n j [] row h e = ground arith
select-append n j (f ∷ fs) row h e = ground (arith, select-append n j fs row h.1 e, h.0)

KeysBelow-append :
    (n : ℕ) (fs : List File) (row : File)
    → KeysBelow n fs
    → row.key ≡ n
    → KeysBelow (suc n) (fs ++ row ∷ [])
KeysBelow-append n [] row h e = (omega arith, tt)
KeysBelow-append n (f ∷ fs) row h e = (omega (arith, h.0), KeysBelow-append n fs row h.1 e)

pub KeysBelow-delete_files :
    (n key : ℕ) (fs : List File) → KeysBelow n fs → KeysBelow n (delete_files key fs)
unfolding delete_files
KeysBelow-delete_files n key [] h = tt
KeysBelow-delete_files n key (f ∷ fs) h = elim (Bool-cases (f.key == key)) [
  | inl same ↦ rw same (KeysBelow-delete_files n key fs h.1)
  | inr other ↦ rw other (h.0, KeysBelow-delete_files n key fs h.1)
]

pub KeysBelow-touch_files :
    (n now key : ℕ) (fs : List File) → KeysBelow n fs → KeysBelow n (touch_files now key fs)
unfolding touch_files
KeysBelow-touch_files n now key [] h = tt
KeysBelow-touch_files n now key (f ∷ fs) h = elim (Bool-cases (f.key == key)) [
  | inl same ↦ rw same (h.0, KeysBelow-touch_files n now key fs h.1)
  | inr other ↦ rw other (h.0, KeysBelow-touch_files n now key fs h.1)
]

abbrev pub IsValid : Tables → Type 0
IsValid t = KeysBelow t.next_file t.files

module _ {A : Type 0} where
  -- A transaction that succeeds has run its statement.
  pub transaction_ok :
      (server : Server) (wrap : SqlError → Error)
      (statement : Tables → Result SqlError (A × Tables)) (t : Tables) {a : A}
      → (transaction server wrap statement t).0 ≡ ok a
      → statement t ≡ ok (a, (transaction server wrap statement t).1)
  unfolding transaction
  transaction_ok server wrap statement t h = ground arith

-- The row that `insert_file` makes.
abbrev pub row_of : ℕ → Text → ℕ → ℕ → Text → Bytes → Tables → File
row_of now id drive_key size content_type secret t = record {
  key = t.next_file;
  id = id;
  drive_key = drive_key;
  size = size;
  content_type = content_type;
  created_time = now;
  accessed_time = now;
  secret = secret;
}

pub insert_file_ok :
    (now : ℕ) (id : Text) (drive_key size : ℕ) (content_type : Text) (secret : Bytes)
    (t t' : Tables) (f : File)
    → insert_file now id drive_key size content_type secret t ≡ ok (f, t')
    → (f ≡ row_of now id drive_key size content_type secret t)
      × (t' ≡ record t {
        files = t.files ++ row_of now id drive_key size content_type secret t ∷ [];
        next_file = suc t.next_file;
      })
unfolding insert_file
insert_file_ok now id drive_key size content_type secret t t' f h = ground arith

-- On tables whose keys are below the sequence, `add_file`, if it succeeds, returns the new row with what
-- it was given under a key of its own; behind it, that key has that row, every other key the file that it
-- had, the drives are the same, and the keys are below the sequence again.
pub add_file_lem :
    (server : Server) (id : Text) (drive_key size : ℕ) (content_type : Text) (secret : Bytes)
    (t : Tables) {f : File}
    → IsValid t
    → (add_file server id drive_key size content_type secret t).0 ≡ ok f
    → let t' = (add_file server id drive_key size content_type secret t).1 in
      (f ≡ row_of server.now id drive_key size content_type secret t)
      × IsValid t'
      × (t'.drives ≡ t.drives)
      × ((j : ℕ) → select_file j t'.files ≡ (if j == f.key then some f else select_file j t.files))
unfolding add_file
add_file_lem server id drive_key size content_type secret t {f} valid h =
    let row = row_of server.now id drive_key size content_type secret t in
    let (e, d) = insert_file_ok server.now id drive_key size content_type secret t _ f (
      transaction_ok server file_add (insert_file server.now id drive_key size content_type secret)
        t h) in
    (
      e,
      rw d (KeysBelow-append t.next_file t.files row valid refl),
      rw d refl,
      λ j. rw (d, e) (select-append t.next_file j t.files row valid refl),
    )

pub remove_file_ok :
    (key : ℕ) (t t' : Tables) (found : Option File)
    → remove_file key t ≡ ok (found, t')
    → (found ≡ select_file key t.files) × (t' ≡ record t { files = delete_files key t.files })
unfolding remove_file
remove_file_ok key t t' found h = ground arith

read_file_ok :
    (now key : ℕ) (t t' : Tables) (found : Option File)
    → read_file now key false t ≡ ok (found, t')
    → (found ≡ select_file key t.files) × (t' ≡ t)
unfolding read_file
read_file_ok now key t t' found h = ground arith

pub touch_file_ok :
    (now key : ℕ) (t t' : Tables) (found : Option File)
    → read_file now key true t ≡ ok (found, t')
    → (found ≡ touch_option now (select_file key t.files))
      × (t' ≡ record t { files = touch_files now key t.files })
unfolding read_file
touch_file_ok now key t t' found h = ground (arith, select-touch_files now key key t.files)

-- On such tables, `delete_file_by_key`, if it succeeds, returns the file of the key, if it has one;
-- behind it the key has no file, every other key has the file that it had, and the keys are still below
-- the sequence, so that a key is never used again.
pub delete_file_by_key_lem :
    (server : Server) (key : ℕ) (t : Tables) {found : Option File}
    → IsValid t
    → (delete_file_by_key server key t).0 ≡ ok found
    → let t' = (delete_file_by_key server key t).1 in
      (found ≡ select_file key t.files)
      × IsValid t'
      × (t'.drives ≡ t.drives)
      × (t'.next_file ≡ t.next_file)
      × ((j : ℕ) → select_file j t'.files ≡ (if j == key then none else select_file j t.files))
unfolding delete_file_by_key
delete_file_by_key_lem server key t {found} valid h =
    let (e, d) =
      remove_file_ok key t _ found (transaction_ok server file_delete (remove_file key) t h) in
    (
      e,
      rw d (KeysBelow-delete_files t.next_file key t.files valid),
      rw d refl,
      rw d refl,
      λ j. rw d (select-delete_files key j t.files),
    )

-- `get_file_by_key` without an update of the access time, if it succeeds, returns the file of the key, if
-- it has one, and changes nothing; with the update it returns the file with the new access time, and only
-- the access time of that file has changed.
pub get_file_by_key_lem :
    (server : Server) (key : ℕ) (t : Tables) {found touched : Option File}
    → IsValid t
    → (get_file_by_key server key false t).0 ≡ ok found
    → (get_file_by_key server key true t).0 ≡ ok touched
    → let t' = (get_file_by_key server key true t).1 in
      (found ≡ select_file key t.files)
      × ((get_file_by_key server key false t).1 ≡ t)
      × (touched ≡ touch_option server.now (select_file key t.files))
      × IsValid t'
      × ((j : ℕ) → select_file j t'.files ≡ (if j == key then touched else select_file j t.files))
unfolding get_file_by_key
get_file_by_key_lem server key t {found} {touched} valid h k =
    let (e, d) =
      read_file_ok server.now key t _ found
        (transaction_ok server file_get (read_file server.now key false) t h) in
    let (g, i) =
      touch_file_ok server.now key t _ touched
        (transaction_ok server file_get (read_file server.now key true) t k) in
    (
      e,
      d,
      g,
      rw i (KeysBelow-touch_files t.next_file server.now key t.files valid),
      λ j. rw i (select-touch_files server.now key j t.files ∙ at_key j g),
    )
  where
    at_key :
        (j : ℕ)
        → touched ≡ touch_option server.now (select_file key t.files)
        → (if j == key
            then touch_option server.now (select_file j t.files)
            else select_file j t.files)
          ≡ (if j == key then touched else select_file j t.files)
    at_key j g = ground arith

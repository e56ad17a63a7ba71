-- ===== src/Store/Vault/Ids.antt =====
-- The ids of the rows are distinct, as the schema wants it.
use castella.Prelude.{
  ℕ, ◌≡◌, refl, ◌∙◌, [], ◌∷◌, ◌++◌, List, some, Bytes, true, false, ◌||◌, ◌==◌, arith, Bool-cases,
  inl, inr, ok,
}
use castella.Text.{Text}
use castella.Db.{Server, add_file, file_add}
use castella.Db.Files.{transaction_ok}
use castella.Db.Rows.{
  File, Tables, text_eq, has_file_id, select_file, touch_files, delete_files, insert_file,
}

abbrev pub DistinctIds : List File → Type 0
DistinctIds [] = Unit
DistinctIds (f ∷ fs) = (has_file_id f.id fs ≡ false) × DistinctIds fs

pub text_eq_refl : (s : Text) → text_eq s s ≡ true
text_eq_refl [] = refl
text_eq_refl (c ∷ s) = ground (arith, text_eq_refl s)

pub text_eq_sym : (s t : Text) → text_eq s t ≡ text_eq t s
text_eq_sym [] [] = refl
text_eq_sym [] (d ∷ t) = refl
text_eq_sym (c ∷ s) [] = refl
text_eq_sym (c ∷ s) (d ∷ t) = ground (arith, text_eq_sym s t)

has_file_id-touch_files :
    (id : Text) (now key : ℕ) (fs : List File)
    → has_file_id id (touch_files now key fs) ≡ has_file_id id fs
unfolding has_file_id touch_files
has_file_id-touch_files id now key [] = refl
has_file_id-touch_files id now key (f ∷ fs) = ground (arith, has_file_id-touch_files id now key fs)

pub touch_files-DistinctIds :
    (now key : ℕ) (fs : List File) → DistinctIds fs → DistinctIds (touch_files now key fs)
unfolding touch_files
touch_files-DistinctIds now key [] h = tt
touch_files-DistinctIds now key (f ∷ fs) h = elim (Bool-cases (f.key == key)) [
  | inl same ↦
      rw same
        (has_file_id-touch_files f.id now key fs ∙ h.0, touch_files-DistinctIds now key fs h.1)
  | inr other ↦
      rw other
        (has_file_id-touch_files f.id now key fs ∙ h.0, touch_files-DistinctIds now key fs h.1)
]

has_file_id-delete_files :
    (id : Text) (key : ℕ) (fs : List File)
    → has_file_id id fs ≡ false
    → has_file_id id (delete_files key fs) ≡ false
unfolding has_file_id delete_files
has_file_id-delete_files id key [] h = refl
has_file_id-delete_files id key (f ∷ fs) h = ground (arith, has_file_id-delete_files id key fs)

pub delete_files-DistinctIds :
    (key : ℕ) (fs : List File) → DistinctIds fs → DistinctIds (delete_files key fs)
unfolding delete_files
delete_files-DistinctIds key [] h = tt
delete_files-DistinctIds key (f ∷ fs) h = elim (Bool-cases (f.key == key)) [
  | inl same ↦ rw same (delete_files-DistinctIds key fs h.1)
  | inr other ↦
      rw other (has_file_id-delete_files f.id key fs h.0, delete_files-DistinctIds key fs h.1)
]

has_file_id-append :
    (id : Text) (fs : List File) (row : File)
    → has_file_id id (fs ++ row ∷ []) ≡ (has_file_id id fs || text_eq row.id id)
unfolding has_file_id
has_file_id-append id [] row = ground arith
has_file_id-append id (f ∷ fs) row = ground (arith, has_file_id-append id fs row)

pub append-DistinctIds :
    (fs : List File) (row : File)
    → DistinctIds fs
    → has_file_id row.id fs ≡ false
    → DistinctIds (fs ++ row ∷ [])
unfolding has_file_id
append-DistinctIds [] row h new = (refl, tt)
append-DistinctIds (f ∷ fs) row h new = (
  ground (arith, has_file_id-append f.id fs row, text_eq_sym f.id row.id, h.0),
  append-DistinctIds fs row h.1 (ground arith),
)

-- An id that is not in use is not that of a row that is found.
pub select_file-ne_id :
    (id : Text) (key : ℕ) (fs : List File) (f : File)
    → has_file_id id fs ≡ false
    → select_file key fs ≡ some f
    → text_eq f.id id ≡ false
unfolding has_file_id select_file
select_file-ne_id id key [] f new h = cc
select_file-ne_id id key (g ∷ fs) f new h = ground (arith, select_file-ne_id id key fs f)

-- The files of different keys have different ids.
pub select_file-distinct :
    (j k : ℕ) (fs : List File) (f g : File)
    → DistinctIds fs
    → select_file j fs ≡ some f
    → select_file k fs ≡ some g
    → (j == k) ≡ false
    → text_eq f.id g.id ≡ false
unfolding select_file
select_file-distinct j k [] f g d hj hk ne = cc
select_file-distinct j k (h ∷ fs) f g d hj hk ne = ground (
  arith,
  select_file-distinct j k fs f g d.1,
  select_file-ne_id h.id j fs f d.0,
  select_file-ne_id h.id k fs g d.0,
  text_eq_sym f.id g.id,
)

insert_file_fresh :
    (now : ℕ) (id : Text) (drive_key size : ℕ) (content_type : Text) (secret : Bytes)
    (t t' : Tables) (f : File)
    → insert_file now id drive_key size content_type secret t ≡ ok (f, t')
    → has_file_id id t.files ≡ false
unfolding insert_file
insert_file_fresh now id drive_key size content_type secret t t' f h = ground arith

-- The id of a row that was added was not in use.
pub add_file_fresh :
    (server : Server) (id : Text) (drive_key size : ℕ) (content_type : Text) (secret : Bytes)
    (t : Tables) {f : File}
    → (add_file server id drive_key size content_type secret t).0 ≡ ok f
    → has_file_id id t.files ≡ false
unfolding add_file
add_file_fresh server id drive_key size content_type secret t {f} h =
    insert_file_fresh server.now id drive_key size content_type secret t _ f (
      transaction_ok server file_add (insert_file server.now id drive_key size content_type secret)
        t h)

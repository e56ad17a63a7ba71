-- ===== src/Store/Vault.antt =====
-- What the store promises: a map from keys to documents. A store represents such a map when each row of
-- its database is that of a document, and the service has the document's ciphertext under the row's id.
pub mod Ids
pub mod Reading
pub mod Answers
pub mod Writing
pub mod Removing
pub mod RoundTrip
use castella.Prelude.{
  ℕ, ◌≡◌, ◌<◌, ◌≤◌, Option, none, some, Bytes, Bool, length, take, concat, ◌==◌, if◌then◌else◌,
}
use castella.Text.{Text}
use castella.Stream.Flow.{Stream, bytes_of}
use castella.Drive.{Remote}
use castella.Drive.Service.{Service}
use castella.Db.Rows.{File, Tables, select_file}
use castella.Db.Files.{IsValid}
use castella.Store.Cipher.{Aead, secret_size, new}
use castella.Store.Layout.Bounds.{max_size}
use castella.Store.Content.Sealed.{sealed_file}
use castella.Store.Operations.{Store}
use Ids.{DistinctIds}

pub record Document : Type 0 where
  pub content_type : Text
  pub plain : Bytes

-- The document of an upload: the first `size` bytes of the stream.
abbrev pub document : {E : Type 0} → ℕ → Text → Stream E Bytes → Document
document size content_type content = record {
  content_type = content_type;
  plain = take size (bytes_of content);
}

abbrev pub Vault : Type 0
Vault = ℕ → Option Document

-- The map with the document of one key replaced.
abbrev pub update : Vault → ℕ → Option Document → Vault
update v key d j = if j == key then d else v j

module _ {W B X J A : Type 0} {remote : Remote W B X J A} (aead : Aead)
    (service : Service remote) where
  -- The row `f` is that of the document `d`, whose ciphertext the service has.
  pub record IsStored (w : W) (f : File) (d : Document) : Type 0 where
    pub secret : length f.secret ≡ secret_size
    pub size : f.size ≡ length d.plain
    pub nonempty : 0 < length d.plain
    pub small : length d.plain ≤ max_size
    pub content_type : f.content_type ≡ d.content_type
    pub held : service.file w f.id ≡ some (concat (sealed_file aead (new f.secret) d.plain))

  abbrev pub Holds : W → Option File → Option Document → Type 0
  Holds w none none = Unit
  Holds w none (some d) = ⊥
  Holds w (some f) none = ⊥
  Holds w (some f) (some d) = IsStored w f d

  pub record Represents (s : Store W) (v : Vault) : Type 0 where
    pub valid : IsValid s.tables
    pub distinct : DistinctIds s.tables.files
    pub rows : (key : ℕ) → Holds s.remote (select_file key s.tables.files) (v key)

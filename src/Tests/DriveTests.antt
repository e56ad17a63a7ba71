-- ===== src/Tests/DriveTests.antt =====
-- The client of the Drive API at a concrete service.
use castella.Prelude.{ℕ, ◌≤◌, ◌≡◌, refl, [], ◌∷◌, ◌++◌, none, some, ok, Bytes, length, arith}
use castella.Prelude.Ranges.{Range, included}
use castella.Stream.Flow.{Stream, bytes_of, failure}
use castella.Stream.Concrete.{futures}
use castella.Stream.Bandwidth.{new, throttle_stream}
use castella.Header.{range_bounds, parse_single_range_header}
use castella.Store.Layout.{resolve_range}
use castella.Drive.{
  FileHandle, get_file, range_header, multipart_prefix, multipart_suffix, multipart_body,
  multipart_length,
}
use castella.Drive.Ranges.{get_file_covers, range_header-resolve_range}
use castella.Drive.Upload.{multipart_length-exact}
use castella.Tests.Service.{service}

abbrev handle : FileHandle
handle = record { id = 70 ∷ [] }

abbrev asked : Range
asked = record { start = 1; end = 4 }

get_file_covers_example : (0 ≤ 1) × (4 ≤ 5)
unfolding get_file
get_file_covers_example = get_file_covers service handle asked (1 ∷ 2 ∷ 3 ∷ 4 ∷ 5 ∷ []) refl

range_header-resolve_range_example :
    (parse_single_range_header (range_header asked)
      ≡ some (record { start = included 1; end = included 3 }))
    × (resolve_range (range_bounds (record { start = included 1; end = included 3 })) 5
        ≡ some asked)
range_header-resolve_range_example =
    range_header-resolve_range asked 5 (omega arith) (omega arith) (omega arith)

abbrev media : Stream ℕ Bytes
media = ok (1 ∷ 2 ∷ []) ∷ ok (3 ∷ []) ∷ []

multipart_length-exact_example :
    let body = throttle_stream futures (multipart_body futures (45 ∷ []) (8 ∷ []) media) (new 2) in
    (failure body ≡ none)
    × (bytes_of body
        ≡ multipart_prefix (45 ∷ []) (8 ∷ []) ++ (bytes_of media ++ multipart_suffix (45 ∷ [])))
    × (length (bytes_of body) ≡ multipart_length (45 ∷ []) (8 ∷ []) 3)
unfolding multipart_prefix multipart_suffix
multipart_length-exact_example =
    multipart_length-exact futures (45 ∷ []) (8 ∷ []) media (new 2) 3 refl refl (omega arith)

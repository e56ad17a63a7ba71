-- ===== src/Tests/ServerTests.antt =====
-- Headers of requests and replies.
use castella.Prelude.{ℕ, ◌≡◌, [], some, arith}
use castella.Text.{decimal}
use castella.Header.RoundTrip.{range_text}
use castella.Store.Layout.{requested_range}
use castella.Server.{Formats, range_argument}
use castella.Db.Rows.{File}
use castella.Drive.{FileResponse}
use castella.Server.Partial.{requested_range-range_text, requested_range-suffix}
use castella.Drive
use castella.Tests.Service.{row}

requested_range-range_text_example :
    (requested_range (range_argument (some (range_text (decimal 10) (decimal 25)))) 100
      ≡ record { start = 10; end = 26 })
    × (requested_range (range_argument (some (range_text (decimal 10) []))) 100
        ≡ record { start = 10; end = 100 })
requested_range-range_text_example =
    requested_range-range_text 10 25 100 (omega arith) (omega arith) (omega arith)

requested_range-suffix_example :
    requested_range (range_argument (some (range_text [] (decimal 25)))) 100
    ≡ record { start = 0; end = 26 }
requested_range-suffix_example = requested_range-suffix 25 100 (omega arith) (omega arith)

abbrev formats : Formats
formats = record { etag_of = λ id. id; to_rfc2822 = λ n. decimal n }

abbrev Failure : Type 0
Failure = Drive.Error ℕ ℕ ℕ

abbrev file : File
file = row 1 1

abbrev nothing : FileResponse Failure
nothing = record { stream = []; range = record { start = 0; end = 21 } }

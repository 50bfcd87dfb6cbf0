-- ===== src/Tests/ServerRuns.antt =====
-- The limiter, the listings and the archives of distrib/ at concrete inputs.
use hadock.Common.{
  ℕ, ◌+◌, ◌-◌, ◌≤◌, ◌≡◌, ◌↔◌, refl, ap, ◌∙◌, sym, true, false, Bool, List, [], ◌∷◌, map, none, some,
  Option, Bytes, arith, ltb, if◌then◌else◌,
}
use hadock.Common.Texts.{codes}
use hadock.Distrib.Browse.{FileInfo, Info, Encoding, ends_server, serve}
use hadock.Distrib.Browse.Names.{HasShort, serve-HasShort}
use hadock.Distrib.Download.{
  Call, errs, directory, visits, TarMember, ZipMember, write_tar, write_zip,
}
use hadock.Distrib.Download.Selection.{chosen, tar_of, zip_of, has_error, write_tar-write_zip}
use hadock.Distrib.Limit.{Event, requests, ticks, new_limiter, run}
use hadock.Distrib.Limit.Purge.{Refills, requests_of, run-requests_of}

-- A token bucket of ten tokens that gains one a second; a token counts 1000000000.
record Bucket : Type 0 where
  level : ℕ
  last : ℕ

abbrev capped : ℕ → ℕ
capped l = if ltb l 10000000000 then l else 10000000000

abbrev take_one : ℕ → ℕ → Bool × Bucket
take_one t l =
    if ltb 999999999 l
    then (true, record { level = l - 1000000000; last = t })
    else (false, record { level = l; last = t })

abbrev allow_at : ℕ → Bucket → Bool × Bucket
allow_at t b = take_one t (capped (b.level + (t - b.last)))

abbrev full : Bucket
full = record { level = 10000000000; last = 0 }

take_one-last : (t l : ℕ) → (take_one t l).1.last ≡ t
take_one-last t l = ground arith

capped-full : (l d : ℕ) → 10000000000 ≤ d → capped (l + d) ≡ 10000000000
capped-full l d h = ground arith

capped-more : (d : ℕ) → capped (10000000000 + d) ≡ 10000000000
capped-more d = ground arith

bucket-Refills : Refills full allow_at
bucket-Refills s t b h =
    let c = (allow_at s b).1 in
    let e : c.last ≡ s = take_one-last s (capped (b.level + (s - b.last))) in
    ap (take_one t)
      (capped-full c.level (t - c.last) (omega (arith, e)) ∙ sym (capped-more (t - 0)))

abbrev visits_of : List Event
visits_of =
    requests (codes "a") 1
    ∷ requests (codes "b") 2
    ∷ ticks 130000000000
    ∷ requests (codes "a") 130000000001
    ∷ []

run-requests_of_example :
    run full allow_at (new_limiter full allow_at) visits_of
    ≡ run full allow_at (new_limiter full allow_at) (requests_of visits_of)
run-requests_of_example = run-requests_of full allow_at visits_of bucket-Refills (omega arith)

abbrev named : Bytes → FileInfo
named n = record { name = n; size = 1; mod_time = 2; is_dir = false }

abbrev no_number : Bytes → ℕ
no_number s = 0

abbrev listing : List FileInfo
listing =
    named (codes "51_7_20170105_060708.dat") ∷ named (codes "a.xml") ∷ named (codes "README") ∷ []

-- Every listing is encoded as no bytes.
abbrev no_bytes : Encoding → List Info → Option Bytes
no_bytes e ns = some []

serve-HasShort_example :
    (serve no_number no_number no_bytes (codes "text/csv") (some listing) ≡ ends_server)
    ↔ HasShort listing
serve-HasShort_example = serve-HasShort no_number no_number no_bytes (codes "text/csv") listing

abbrev a_file : Bytes → Option Bytes → Call
a_file p o = visits (record { path = p; size = 1; mod_time = 2; contents = o })

abbrev walk : List Call
walk =
    directory (codes "/d")
    ∷ a_file (codes "/d/a.dat") (some (1 ∷ []))
    ∷ a_file (codes "/d/a.xml") (some (2 ∷ []))
    ∷ a_file (codes "/d/b.dat") none
    ∷ errs
    ∷ []

abbrev whole_path : Bytes → Bytes
whole_path p = p

abbrev no_tar_fails : TarMember → Bool
no_tar_fails m = false

abbrev no_zip_fails : ZipMember → Bool
no_zip_fails m = false

write_tar-write_zip_example :
    (write_tar whole_path (codes "/d") false false no_tar_fails walk ≡ (
      map
          (tar_of whole_path (codes "/d") false false)
          (chosen whole_path (codes "/d") false false walk),
      has_error whole_path (codes "/d") false false walk,
    ))
    × (write_zip whole_path (codes "/d") false false no_zip_fails walk ≡ (
      map
          (zip_of whole_path (codes "/d") false false)
          (chosen whole_path (codes "/d") false false walk),
      has_error whole_path (codes "/d") false false walk,
    ))
write_tar-write_zip_example =
    write_tar-write_zip whole_path (codes "/d") false false no_tar_fails no_zip_fails walk
      (record { tar_takes = λ m. refl; zip_takes = λ m. refl })

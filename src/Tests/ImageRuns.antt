-- ===== src/Tests/ImageRuns.antt =====
-- internal/image/image.go at concrete inputs.
use hadock.Common.{ℕ, ◌+◌, ◌*◌, ◌/◌, ◌≡◌, refl, [], ◌∷◌, none, some, Bytes, get_or, drop, arith}
use hadock.Images.{Planes, copied, push, lbr_round, lbr_rounds, image_lbr}
use hadock.Images.Raster.{image_gray8, image_gray16, image_rgb, little_endian}
use hadock.Images.Raster.Pixels.{word_of, color_of, pixels_at}
use hadock.Images.Shared.{reds, image_lbr-shared}

abbrev doubled : ℕ → ℕ
doubled n = 2 * n

abbrev two_rounds : Bytes
two_rounds = 10 ∷ 11 ∷ 12 ∷ 13 ∷ 20 ∷ 21 ∷ 22 ∷ 23 ∷ []

image_lbr-shared_example :
    (g : Planes) × (image_lbr doubled 4 1 two_rounds ≡ some g)
    × (g.blue ≡ copied ((4 + 1) / 2 * 1) (reds two_rounds))
    × (g.red ≡ copied ((4 + 1) / 2 * 1) (reds two_rounds))
image_lbr-shared_example = image_lbr-shared doubled 4 1 2 two_rounds refl

lbr_run :
    image_lbr doubled 4 1 two_rounds
    ≡ some (record { luma = 10 ∷ 12 ∷ 20 ∷ 22 ∷ []; blue = 13 ∷ 23 ∷ []; red = 13 ∷ 23 ∷ [] })
unfolding image_lbr lbr_rounds lbr_round push
lbr_run = refl

lbr_panics : image_lbr doubled 4 1 (1 ∷ 2 ∷ 3 ∷ []) ≡ none
unfolding image_lbr lbr_rounds
lbr_panics = refl

pixels_at_example :
    (image_gray8 2 3 two_rounds 1 2 ≡ get_or two_rounds (2 * 2 + 1) 0)
    × (image_gray16 2 3 two_rounds little_endian 1 2
        ≡ word_of little_endian (drop ((2 * 2 + 1) * 2) two_rounds))
    × (image_rgb 2 3 two_rounds 1 2 ≡ color_of (drop ((2 * 2 + 1) * 3) two_rounds))
pixels_at_example = pixels_at 2 3 two_rounds little_endian 1 2 (omega arith) (omega arith)

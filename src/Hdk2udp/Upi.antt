-- ===== src/Hdk2udp/Upi.antt =====
-- The UPI of the notifier's messages against that of the storage.
use hadock.Common.{◌≡◌, ◌≢◌, refl, sym, ◌∙◌, Bool, true, false, [], Bytes, if◌then◌else◌}
use hadock.Common.Texts.{codes}
use hadock.Panda.{HrPacket, Kind, table, image, other, sdh_v1, sdh_v2, idh_v1, idh_v2}
use hadock.Notifier.Pool.{extract_user_info, is_vmu, trim_nuls}
use hadock.Storage.{get_upi, upi_info, upi_default}

abbrev message_upi : Kind → Bytes
message_upi (table s) = codes "SCIENCE"
message_upi (image i) = codes "IMAGE"
message_upi other = []

if_same {ℓ} : {A : Type ℓ} (b : Bool) (x : A) → (if b then x else x) ≡ x
if_same true x = refl
if_same false x = refl

extract_default :
    (k : Kind) (p : HrPacket)
    → p.kind ≡ k
    → is_vmu k ≡ true
    → trim_nuls (upi_info k) ≡ []
    → extract_user_info p ≡ message_upi k
unfolding extract_user_info trim_nuls
extract_default (table sdh_v1) p e v h = rw e (if_same p.realtime _)
extract_default (table (sdh_v2 info)) p e v h = rw (e, h) (if_same p.realtime _)
extract_default (image (idh_v1 info)) p e v h = rw (e, h) (if_same p.realtime _)
extract_default (image (idh_v2 info)) p e v h = rw (e, h) (if_same p.realtime _)
extract_default other p e v h = cc

get_upi-default : (p : HrPacket) → trim_nuls (upi_info p.kind) ≡ [] → get_upi p ≡ upi_default p.kind
unfolding get_upi
get_upi-default p h = rw h

names_differ : (k : Kind) → is_vmu k ≡ true → message_upi k ≢ upi_default k
names_differ (table s) v q = cc
names_differ (image i) v q = cc
names_differ other v q = cc

-- A table or an image whose header names no user is UPI "SCIENCE" or "IMAGE" in a message and has another
-- directory, "SCIENCES" or "IMAGES", in the storage.
upi_differs :
    (p : HrPacket)
    → is_vmu p.kind ≡ true
    → trim_nuls (upi_info p.kind) ≡ []
    → extract_user_info p ≢ get_upi p
upi_differs p v h q =
    names_differ p.kind v (sym (extract_default p.kind p refl v h) ∙ q ∙ get_upi-default p h)

-- ===== src/Examples/Samples.antt =====
-- The claims, patches and files that the examples share.
use mathlib.Core.List.{Memᴰ}
use code_discovery_pyramid.Base.{false, Option, none, some, List, [], ◌∷◌, ◌≢◌, sym, ap, ◌∙◌}
use code_discovery_pyramid.Base.Text.{Text, text}
use code_discovery_pyramid.Base.{Ord}
use code_discovery_pyramid.Base.Sorting.{KeyDistinct}
use code_discovery_pyramid.Claims.{
  Anchor, Claim, high, llm, Unknown, plain_unknown, Patch, PatchStatus, complete, failed,
}

abbrev pub the_anchor : Anchor
the_anchor = record { file = text "a.py"; line = 1; anchor = text "def save(order):" }

abbrev pub other_anchor : Anchor
other_anchor = record { file = text "b.py"; line = 7; anchor = text "orders.save(cart)" }

abbrev pub claim_by : Text → Text → Option Text → List Anchor → Claim
claim_by node id visibility evidence = record {
  id = id;
  kind = text "purpose";
  subject = text "shop.Order";
  channel = none;
  visibility = visibility;
  side_effect_type = none;
  statement = text "Orders are saved.";
  evidence = evidence;
  confidence = high;
  escalated = false;
  source_node = some node;
  contested_with = none;
  statements = none;
  source_nodes = none;
  claim_reviewed_at = none;
  anchor_verified_at = none;
  verdict = none;
  author_kind = some llm;
}

abbrev pub public_claim : Claim
public_claim =
    claim_by (text "orders") (text "o1") (some (text "public")) (the_anchor ∷ other_anchor ∷ [])

abbrev pub private_claim : Claim
private_claim = claim_by (text "carts") (text "c1") (some (text "private")) (the_anchor ∷ [])

abbrev pub open_question : Unknown
open_question = record (plain_unknown (text "Who retries?") (text "No call is visible.")) {
  subject = some (text "shop.Order");
  needs = some (text "needs_human");
}

abbrev pub patch_of : Text → PatchStatus → List Claim → List Unknown → Patch
patch_of node status claims unknowns = record {
  node = node;
  run_id = text "r1";
  status = status;
  generation = some 1;
  error = none;
  claims = claims;
  unknowns = unknowns;
}

abbrev pub orders_patch : Patch
orders_patch = patch_of (text "orders") complete (public_claim ∷ []) (open_question ∷ [])

abbrev pub failed_patch : Patch
failed_patch = patch_of (text "carts") failed [] []

abbrev pub digest : List Anchor → Text
digest [] = text "0"
digest (a ∷ rest) = a.anchor

pub two_distinct {ℓ κ} :
    {A : Type ℓ} {K : Type κ} ⦃o : Ord K⦄ (key : A → K) (a b : A)
    → key a ≢ key b
    → KeyDistinct key (a ∷ b ∷ [])
two_distinct key a b ne x y (Memᴰ.head p) (Memᴰ.head q) h = p ∙ sym q
two_distinct key a b ne x y (Memᴰ.head p) (Memᴰ.tail (Memᴰ.head q)) h =
    absurd (ne (ap key (sym p) ∙ (h ∙ ap key q)))
two_distinct key a b ne x y (Memᴰ.head p) (Memᴰ.tail (Memᴰ.tail n)) h = elim n [ ]
two_distinct key a b ne x y (Memᴰ.tail (Memᴰ.head p)) (Memᴰ.head q) h =
    absurd (ne (ap key (sym q) ∙ (sym h ∙ ap key p)))
two_distinct key a b ne x y (Memᴰ.tail (Memᴰ.head p)) (Memᴰ.tail (Memᴰ.head q)) h = p ∙ sym q
two_distinct key a b ne x y (Memᴰ.tail (Memᴰ.head p)) (Memᴰ.tail (Memᴰ.tail n)) h = elim n [ ]
two_distinct key a b ne x y (Memᴰ.tail (Memᴰ.tail n)) m h = elim n [ ]

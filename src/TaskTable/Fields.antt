-- ===== src/TaskTable/Fields.antt =====
-- cdp/store/sqlite_backend.py: the columns that a statement leaves alone.
use mathlib.Core.List.{Memᴰ}
use code_discovery_pyramid.Base.{
  ℕ, ◌≡◌, ◌≢◌, refl, ap, ◌∙◌, List, [], ◌∷◌, nat_eq, pair_eq, ne→==_false,
}
use code_discovery_pyramid.Base.Dict.{keys, lookup}
use code_discovery_pyramid.Base.Update.{update, lookup-update_ne, keys-update}
use code_discovery_pyramid.Base.Text.{Text, text_eq}
use code_discovery_pyramid.TaskTable.{
  Task, Key, Table, Field, set_state, set_attempts, set_dispatched_at, set_last_error,
  set_patch_hash, set_wall_ms, set_field, set_fields, update_each,
}
use code_discovery_pyramid.TaskTable.Races.{Phase, holding}

abbrev until_of : Phase → ℕ
until_of (holding u) = u
until_of _ = 0

pub deadline : {u v : ℕ} → holding u ≡ holding v → u ≡ v
deadline h = ap until_of h

set_field-lease_until : (t : Task) (f : Field) → (set_field t f).lease_until ≡ t.lease_until
set_field-lease_until t (set_state s) = refl
set_field-lease_until t (set_attempts n) = refl
set_field-lease_until t (set_dispatched_at s) = refl
set_field-lease_until t (set_last_error s) = refl
set_field-lease_until t (set_patch_hash s) = refl
set_field-lease_until t (set_wall_ms n) = refl

pub set_fields-lease_until :
    (fs : List Field) (t : Task) → (set_fields fs t).lease_until ≡ t.lease_until
unfolding set_fields
set_fields-lease_until [] t = refl
set_fields-lease_until (f ∷ fs) t =
    set_fields-lease_until fs (set_field t f) ∙ set_field-lease_until t f

pub keys-update_each :
    (f : Task → Task) (run : Text) (hs : List Text) (d : Table)
    → keys (update_each f run hs d) ≡ keys d
unfolding update_each
keys-update_each f run [] d = refl
keys-update_each f run (h ∷ hs) d =
    keys-update_each f run hs (update f (run, h) d) ∙ keys-update f (run, h) d

pub lookup-update_each :
    (f : Task → Task) (run : Text) (k : Key) (hs : List Text) (d : Table)
    → ((h : Text) → Memᴰ h hs → k ≢ (run, h))
    → lookup k (update_each f run hs d) ≡ lookup k d
unfolding update_each
lookup-update_each f run k [] d n = refl
lookup-update_each f run k (h ∷ hs) d n =
    lookup-update_each f run k hs (update f (run, h) d) (λ j m. n j (Memᴰ.tail m))
    ∙ lookup-update_ne f (run, h) k d (ne→==_false k (run, h) (n h (Memᴰ.head refl)))

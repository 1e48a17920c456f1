-- ===== src/Webhooks/Order.antt =====
-- Updates of different times may arrive in any order.
use mathlib.Core.List.{Permᴰ, Pairwise, Mem}
use mathlib.Core.List
use mathlib.Core.HLevel.{¬_prop}
use pair_dock.Prelude.{List, [], ◌∷◌, ◌≡◌, ◌≢◌, refl, sym, ap, ◌∙◌, arith}
use pair_dock.Webhooks.{StatusUpdate, PullRequest, is_target, written, update_row, update_status}

abbrev pub Apart : StatusUpdate → StatusUpdate → Type 0
Apart u v = u.status_updated_at ≢ v.status_updated_at

target-written :
    (u v : StatusUpdate) (row : PullRequest) → is_target u (written v row) ≡ is_target u row
unfolding is_target
target-written u v row = refl

update_row_comm :
    (u v : StatusUpdate) (row : PullRequest)
    → Apart u v
    → update_row u (update_row v row) ≡ update_row v (update_row u row)
unfolding update_row
update_row_comm u v row apart = ground (arith, target-written u v row, target-written v u row)

update_rows_comm :
    (u v : StatusUpdate) (rows : List PullRequest)
    → Apart u v
    → (update_status u (update_status v rows).0).0 ≡ (update_status v (update_status u rows).0).0
unfolding update_status
update_rows_comm u v [] apart = refl
update_rows_comm u v (row ∷ rows) apart =
    λ i. update_row_comm u v row apart i ∷ update_rows_comm u v rows apart i

-- Updates one after the other.
unfoldable pub update_all : List StatusUpdate → List PullRequest → List PullRequest
unfolding update_status
update_all [] rows = rows
update_all (u ∷ updates) rows = update_all updates (update_status u rows).0

Pairwise-Apart : {us vs : List StatusUpdate} → Permᴰ us vs → Pairwise Apart us → Pairwise Apart vs
Pairwise-Apart = List.Permᴰ.pairwise (λ u v. ¬_prop) (λ u v apart e. apart (sym e))

-- Updates with pairwise different times leave the same rows in whatever order they arrive.
pub update_all-perm :
    (us vs : List StatusUpdate) (rows : List PullRequest)
    → Permᴰ us vs
    → Pairwise Apart us
    → update_all us rows ≡ update_all vs rows
unfolding update_all
update_all-perm us vs rows p d = permuted p d rows
  where
    permuted :
        {us vs : List StatusUpdate}
        → Permᴰ us vs
        → Pairwise Apart us
        → (rows : List PullRequest) → update_all us rows ≡ update_all vs rows
    permuted Permᴰ.nil d rows = refl
    permuted (Permᴰ.cons {a} {b} {l₁} {l₂} e p) (Pairwise.cons _ d) rows =
        ap (λ u. update_all l₁ (update_status u rows).0) e ∙ permuted p d (update_status b rows).0
    permuted (Permᴰ.swap {a} {b} {a'} {b'} {l} e f) (Pairwise.cons apart d) rows =
        ap (λ r. update_all l r)
          (update_rows_comm b a rows (λ h. apart b List.mem-cons_self (sym h)))
        ∙ (λ i. update_all l (update_status (e i) (update_status (f i) rows).0).0)
    permuted (Permᴰ.trans p q) d rows = permuted p d rows ∙ permuted q (Pairwise-Apart p d) rows

-- ===== src/Store/Wallet/Admission.antt =====
-- internal/inference/postgres/wallet_repo.go: the wallet transactions keep the tables of the quota consistent.
use mathlib.Core.Path.{subst}
use yunhou_users.Common.{ℕ, ◌≡◌, refl, sym, ℤ, pos, ◌+ℤ◌, ◌∷◌, int_laws, All}
use yunhou_users.Domain.Errors.{Result, ok}
use yunhou_users.Store.Wallet.{BusinessKey}
use yunhou_users.Store.Wallet.Outcomes.{
  credit_topup-Posts, refund_wallet-Posts, apply_wallet_adjustment-Posts,
  reverse_wallet_entry-Reverses,
}
use yunhou_users.Store.Wallet.Freeze.{
  ReserveWalletCommand, reserve_wallet, wallet_request, wallet_reservation,
}
use yunhou_users.Store.Wallet.Froze.{reserve_wallet-Admits}
use yunhou_users.Store.Wallet.Steps.{Applies, topups, refunds, adjusts, reverses}
use yunhou_users.Store.Quota.{Db, held_on}
use yunhou_users.Store.Quota.Balance.{BalancedBy, BalancedBy-cong}
use yunhou_users.Store.Quota.Loops.{IsConsistent, IsSound, Distinct}
use yunhou_users.Store.Quota.Consistency.{Quiet}
use yunhou_users.Store.Quota.Admission.{Admitted, insert_reservation_ok}

pub Applies-Quiet : (key : BusinessKey) (db next : Db) → Applies db next key → Quiet db next
Applies-Quiet key db next (topups uuid now cmd h) =
    let (w, m, r, t, p) = credit_topup-Posts uuid now cmd db h in p.quiet
Applies-Quiet key db next (refunds now cmd h) =
    let (w, m, r, t, p) = refund_wallet-Posts now cmd db h in p.quiet
Applies-Quiet key db next (adjusts uuid id now cmd row h) =
    let (w, m, r, t, p) = apply_wallet_adjustment-Posts uuid id now cmd db h in p.quiet
Applies-Quiet key db next (reverses now account id h) =
    let (orig, t, found, p) = reverse_wallet_entry-Reverses now account id db h in p.quiet

add_nothing : (z : ℤ) → z ≡ pos 0 +ℤ z
add_nothing z = omega int_laws

-- The reservation of a wallet names no window.
held_on-wallet :
    (id : ℕ) (cmd : ReserveWalletCommand) (db : Db) (i : ℕ)
    → held_on db.reservations i ≡ held_on (wallet_reservation id cmd ∷ db.reservations) i
unfolding held_on
held_on-wallet id cmd db i = add_nothing (held_on db.reservations i)

pub reserve_wallet_keeps :
    (uuid : ℕ → ℕ) (others : Result (Unit {0})) (cmd : ReserveWalletCommand) (db : Db) {next : Db}
    → reserve_wallet uuid others cmd db ≡ ok next
    → IsConsistent db
    → IsConsistent next × Admitted cmd.request.id db next
reserve_wallet_keeps uuid others cmd db {next} h c =
    let f = (reserve_wallet-Admits uuid others cmd db h).froze in
    let (sound, fresh, t) =
      insert_reservation_ok (wallet_reservation (uuid 1) cmd) db.reservations f.reserved in
    (
      record {
        balanced =
            subst (λ rs. BalancedBy (held_on rs) next.windows) (sym t)
              (BalancedBy-cong _ _ next.windows (held_on-wallet (uuid 1) cmd db)
                (subst (BalancedBy (held_on db.reservations)) (sym f.windows) c.balanced));
        distinct = subst Distinct (sym t) (fresh, c.distinct);
        sound = subst (All IsSound) (sym t) (sound, c.sound);
      },
      record {
        fresh = f.fresh;
        row = wallet_request cmd;
        is_row = refl;
        is_reserved = refl;
        requests = f.requests;
      },
    )

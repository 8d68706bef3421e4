-- ===== src/Store/Wallet/Once.antt =====
-- internal/inference/postgres/wallet_repo.go: a business key is applied at most once.
use mathlib.Core.Path.{subst}
use yunhou_users.Common.{
  ℕ, ◌≡◌, refl, ap, ◌∙◌, Bool, true, false, ◌||◌, List, [], ◌∷◌, ℤ, pos, eqb_ℤ, arith, Bool-cases,
  inl, inr, not, add64, eqb, ==_refl,
}
use yunhou_users.Domain.Errors.{Time, ok, >>=-eq-ok, >>-eq-ok, ok_injective, fail_if}
use yunhou_users.Domain.Money.{Money, new_money}
use yunhou_users.Accounting.Wallet.{WalletSource, split_consume, validate_wallet_entry}
use yunhou_users.Store.Table.{any}
use yunhou_users.Store.Wallet.{
  WalletHold, WalletEntry, BusinessKey, source_eqb, key_eqb, same_reversal, insert_wallet_entry,
}
use yunhou_users.Store.Wallet.Posted.{Posted, insert_wallet_entry_ok}
use yunhou_users.Store.Wallet.Outcomes.{
  credit_topup-Posts, refund_wallet-Posts, apply_wallet_adjustment-Posts,
  reverse_wallet_entry-Reverses, set_overage-Idle,
}
use yunhou_users.Store.Wallet.Froze.{reserve_wallet-Admits}
use yunhou_users.Store.Wallet.Steps.{
  Applies, topups, refunds, adjusts, reverses, Step, applies, sets_overage, freezes, consumes,
  lets_go, Reach, here, then_step,
}
use yunhou_users.Store.Quota.{Db}
use yunhou_users.Store.Quota.Release.{release_wallet}
use yunhou_users.Store.Quota.Converted.{hit}
use yunhou_users.Store.Quota.WalletSettle.{
  find_hold, entry_spec, consume_entry, write_consume, settle_wallet_locked,
}

-- Whether an entry of the ledger has the key.
abbrev pub is_applied : BusinessKey → Db → Bool
is_applied key db = any (λ e. key_eqb e.business_key key) db.wallet_entries

source_eqb_refl : (s : WalletSource) → source_eqb s s ≡ true
source_eqb_refl WalletSource.cash = refl
source_eqb_refl WalletSource.bonus = refl
source_eqb_refl WalletSource.unknown_source = refl

key_eqb_refl : (k : BusinessKey) → key_eqb k k ≡ true
key_eqb_refl (BusinessKey.wallet_topup_key p) = ==_refl p
key_eqb_refl (BusinessKey.wallet_refund_key p) = ==_refl p
key_eqb_refl (BusinessKey.wallet_consume_key p s) = rw (==_refl p) (source_eqb_refl s)
key_eqb_refl (BusinessKey.wallet_adjustment_key p) = ==_refl p
key_eqb_refl (BusinessKey.wallet_reversal_key p) = ==_refl p

any_weaker :
    (p q : WalletEntry → Bool) (es : List WalletEntry)
    → any (λ e. p e || q e) es ≡ false
    → any p es ≡ false
any_weaker p q [] h = refl
any_weaker p q (e ∷ es) h = ground (arith, any_weaker p q es)

-- A posting with the key finds it absent and leaves it present.
Posted-is_applied :
    (entry : WalletEntry) (db next : Db)
    → Posted entry db next
    → (is_applied entry.business_key db ≡ false) × (is_applied entry.business_key next ≡ true)
Posted-is_applied entry db next p = (
  any_weaker (λ f. key_eqb f.business_key entry.business_key)
      (λ f. same_reversal f.reverses_entry_id entry.reverses_entry_id) db.wallet_entries p.fresh,
  ap (any (λ f. key_eqb f.business_key entry.business_key)) p.entries
      ∙ ap (λ b. b || any (λ f. key_eqb f.business_key entry.business_key) db.wallet_entries)
          (key_eqb_refl entry.business_key),
)

Applies-is_applied :
    (key : BusinessKey) (db next : Db)
    → Applies db next key
    → (is_applied key db ≡ false) × (is_applied key next ≡ true)
Applies-is_applied key db next (topups uuid now cmd h) =
    let (w, m, r, t, p) = credit_topup-Posts uuid now cmd db h in Posted-is_applied _ db next p
Applies-is_applied key db next (refunds now cmd h) =
    let (w, m, r, t, p) = refund_wallet-Posts now cmd db h in Posted-is_applied _ db next p
Applies-is_applied key db next (adjusts uuid id now cmd row h) =
    let (w, m, r, t, p) = apply_wallet_adjustment-Posts uuid id now cmd db h in
    Posted-is_applied _ db next p
Applies-is_applied key db next (reverses now account id h) =
    let (orig, t, found, p) = reverse_wallet_entry-Reverses now account id db h in
    Posted-is_applied _ db next p

-- The ledger keeps its entries.
abbrev pub Grows : Db → Db → Type 0
Grows db next = (key : BusinessKey) → is_applied key db ≡ true → is_applied key next ≡ true

or_true : (a b : Bool) → b ≡ true → (a || b) ≡ true
or_true a b h = ground arith

append-Grows :
    (e : WalletEntry) (db next : Db) → next.wallet_entries ≡ e ∷ db.wallet_entries → Grows db next
append-Grows e db next t key h = ap (any (λ f. key_eqb f.business_key key)) t ∙ or_true _ _ h

same-Grows : (db next : Db) → next.wallet_entries ≡ db.wallet_entries → Grows db next
same-Grows db next t key h = ap (any (λ f. key_eqb f.business_key key)) t ∙ h

Applies-Grows : (key : BusinessKey) (db next : Db) → Applies db next key → Grows db next
Applies-Grows key db next (topups uuid now cmd h) =
    let (w, m, r, t, p) = credit_topup-Posts uuid now cmd db h in append-Grows _ db next p.entries
Applies-Grows key db next (refunds now cmd h) =
    let (w, m, r, t, p) = refund_wallet-Posts now cmd db h in append-Grows _ db next p.entries
Applies-Grows key db next (adjusts uuid id now cmd row h) =
    let (w, m, r, t, p) = apply_wallet_adjustment-Posts uuid id now cmd db h in
    append-Grows _ db next p.entries
Applies-Grows key db next (reverses now account id h) =
    let (orig, t, found, p) = reverse_wallet_entry-Reverses now account id db h in
    append-Grows _ db next p.entries

write_consume-Grows :
    (hold : WalletHold) (currency : List ℕ) (request_id : ℕ) (now : Time) (source : WalletSource)
    (micros : ℤ) (db : Db) {next : Db}
    → write_consume hold currency request_id now source micros db ≡ ok next
    → Grows db next
unfolding write_consume
write_consume-Grows hold currency request_id now source micros db {next} h =
    elim (Bool-cases (eqb_ℤ micros (pos 0))) [
      | inl q ↦ subst (Grows db) (ok_injective (rw q at h)) (λ key p. p)
      | inr q ↦
          let (m, _, h1) = >>=-eq-ok (new_money micros currency) _ (rw q at h) in
          let (_, h2) = >>-eq-ok (validate_wallet_entry (entry_spec source m)) _ h1 in
          let e = consume_entry hold request_id now source m db in
          let (es, h3, h4) = >>=-eq-ok (insert_wallet_entry e db.wallet_entries) _ h2 in
          let (_, _, t) = insert_wallet_entry_ok e db.wallet_entries h3 in
          subst (Grows db) (ok_injective h4)
            (append-Grows e db (record db { wallet_entries = es }) t)
    ]

settle_wallet_locked-Grows :
    (request_id : ℕ) (now : Time) (charge : Money) (db : Db) {next : Db}
    → settle_wallet_locked request_id now charge db ≡ ok next
    → Grows db next
unfolding settle_wallet_locked
settle_wallet_locked-Grows request_id now charge db e =
    let (hc, _, e1) = >>=-eq-ok (find_hold request_id db) _ e in
    let (hold, currency) = hc in
    let (_, e2) = >>-eq-ok (fail_if (not (eqb charge.currency currency)) _) _ e1 in
    let (parts, _, e3) = >>=-eq-ok (split_consume hold.cash hold.bonus charge.micros) _ e2 in
    let (db1, w1, e4) =
      >>=-eq-ok (write_consume hold currency request_id now WalletSource.bonus parts.1 db) _ e3 in
    let (db2, w2, e5) =
      >>=-eq-ok
        (write_consume hold currency request_id now WalletSource.cash (add64 parts.0 parts.2) db1) _
        e4 in
    let (holds, _, t) = hit _ _ _ e5 in
    subst (Grows db) t (λ key p.
      write_consume-Grows hold currency request_id now WalletSource.cash (add64 parts.0 parts.2) db1
        w2 key
        (write_consume-Grows hold currency request_id now WalletSource.bonus parts.1 db w1 key p))

release_wallet-Grows :
    (request_id : ℕ) (db : Db) {next : Db} → release_wallet request_id db ≡ ok next → Grows db next
unfolding release_wallet
release_wallet-Grows request_id db h =
    let (holds, _, t) = hit _ _ _ h in subst (Grows db) t (λ key p. p)

Step-Grows : (db next : Db) → Step db next → Grows db next
Step-Grows db next (applies key a) = Applies-Grows key db next a
Step-Grows db next (sets_overage uuid account currency new by row h) =
    same-Grows db next (set_overage-Idle uuid account currency new by db h).entries
Step-Grows db next (freezes uuid others cmd h) =
    same-Grows db next (reserve_wallet-Admits uuid others cmd db h).froze.entries
Step-Grows db next (consumes request_id now charge h) =
    settle_wallet_locked-Grows request_id now charge db h
Step-Grows db next (lets_go request_id h) = release_wallet-Grows request_id db h

Reach-Grows : (db : Db) {last : Db} → Reach db last → Grows db last
Reach-Grows db here key h = h
Reach-Grows db (then_step {mid} {last} r step) key h =
    Step-Grows mid last step key (Reach-Grows db r key h)

-- A delivery that is repeated is not applied again: once a top-up of a payment, a refund, an adjustment with
-- an idempotency key or a reversal of an entry has committed, no transaction with the same payment, refund,
-- key or entry commits any more, whatever its other arguments and whatever other wallet transactions
-- committed in between.
pub applied_once :
    (key : BusinessKey) (a b c d : Db) → Applies a b key → Reach b c → ¬ Applies c d key
applied_once key a b c d first steps again =
    let present = Reach-Grows b steps key (Applies-is_applied key a b first).1 in
    let absent = (Applies-is_applied key c d again).0 in cc

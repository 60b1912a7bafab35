-- ===== src/Payments/Started.antt =====
-- What a start of a payment requires and leaves, and how the started payment pays its invoice.
use rasti_kiro_gpt.Common.{
  ℕ, ◌≡◌, ◌≢◌, refl, ap, ◌∙◌, true, false, not, Option, some, ◌==◌, arith, Bool-cases, inl, inr,
}
use rasti_kiro_gpt.Common.Table.{lookup, lookup-save_self, lookup-save_ne}
use rasti_kiro_gpt.Common.Result.{Result, ok, err, ◌>>◌}
use rasti_kiro_gpt.Invoice.Status.{is_issued, Status as InvoiceStatus}
use rasti_kiro_gpt.Invoice.MarkPaid.Defs.{Bill}
use rasti_kiro_gpt.Invoice.MarkPaid.Laws.{AreNumbered}
use rasti_kiro_gpt.Payments.Defs.{Bank, Env, PaymentRow, is_pending, is_paid, verify}
use rasti_kiro_gpt.Payments.Start.{
  PaymentSettings, Site, GatewayRow, InitResponse, Error, start, started_row, or_default,
  online_not_enabled, is_gateway_enabled, is_disabled, is_active_status, check_settings,
  check_gateway, save_settings, not_payable, payment_disabled, gateway_not_activated,
  gateway_inactive, foreign_gateway, not_eligible, no_gateway, no_provider,
}
use rasti_kiro_gpt.Payments.Laws.{pair-injective}
use rasti_kiro_gpt.Payments.Paid.{verify_pays}
use rasti_kiro_gpt.Payments.Opened.{
  found, passed, both_passed, test_passed, or_raise-Found, false_of_not, IsOpened,
  started_row-IsOpened, Started, mode_on, status_active, chosen_from,
}

settings_passed :
    (ps : PaymentSettings)
    → check_settings ps ≡ ok tt
    → (is_disabled ps.payment_mode ≡ false)
      × (is_active_status ps.gateway_activation_status ≡ true)
      × (ps.is_online_payment_enabled ≡ true)
unfolding check_settings
settings_passed ps h =
    let (x, h₁) = both_passed (is_disabled ps.payment_mode) payment_disabled _ h in
    let (y, h₂) =
      both_passed (not (is_active_status ps.gateway_activation_status)) gateway_not_activated _
        h₁ in
    (
      x,
      false_of_not _ y,
      false_of_not _ (passed (not ps.is_online_payment_enabled) online_not_enabled h₂),
    )

gateway_passed :
    (company : ℕ) (g : GatewayRow)
    → check_gateway company g ≡ ok tt
    → (g.is_active ≡ true) × ((g.company == company) ≡ true)
unfolding check_gateway
gateway_passed company g h =
    let (x, h₁) = both_passed (not g.is_active) gateway_inactive _ h in
    (false_of_not _ x, false_of_not _ (passed (not (g.company == company)) foreign_gateway h₁))

-- The payments of a bank that is the outcome.
payments_after :
    {a out : Bank} → ◌≡◌ {A = Result Error Bank} (ok a) (ok out) → out.payments ≡ a.payments
payments_after h = cc

check_first :
    (c : Result Error (Unit {0})) (rest : Result Error Bank) {out : Bank}
    → (c >> rest) ≡ ok out
    → (c ≡ ok tt) × (rest ≡ ok out)
check_first (err e) rest h = absurd (cc)
check_first (ok tt) rest h = (refl, h)

-- A start that succeeds was of an ISSUED invoice of a company with online payment on, ACTIVE and
-- flagged, and an eligible profile, at an active gateway of the company: the given one, or the
-- default if none is given. The payment under the new key is of the company, for the invoice and its
-- total, created now and not paid: PENDING with the provider's reference if the provider took the
-- request, FAILED without one if not. The attempt is noted; other payments, and the invoices, the
-- ledger and the escrow records, stay.
pub start-Started :
    (site : Site) (bill : Bill) (gateway : Option GatewayRow) (pk now : ℕ) (b out : Bank)
    → start site bill gateway pk now b ≡ ok out
    → Started site bill gateway pk now b out
unfolding start
start-Started site bill gateway pk now b out h =
    let (issued, h₁) = test_passed (not (is_issued bill.wage_data.status)) not_payable _ h in
    let (set, h₂) = check_first (check_settings (site.settings bill.company)) _ h₁ in
    let (enabled, activated, online) = settings_passed (site.settings bill.company) set in
    elim (or_raise-Found (or_default site bill.company gateway) no_gateway _ h₂) [
      | found g chosen h₃ ↦
          let (fits, h₄) = check_first (check_gateway bill.company g) _ h₃ in
          let (active, own) = gateway_passed bill.company g fits in
          let (eligible, h₅) =
            test_passed
              (not (
                is_gateway_enabled (site.company_is_active bill.company)
                  (site.merchant_profile bill.company)))
              not_eligible _ h₄ in
          elim (or_raise-Found (site.initiate_payment g.gateway bill.total_amount) no_provider _
            h₅) [
              | found r asked h₆ ↦ record {
                used = g;
                answer = r;
                issued = false_of_not _ issued;
                enabled = mode_on _ enabled;
                activated = status_active _ activated;
                online = online;
                chosen = chosen_from site bill.company gateway g chosen;
                active = active;
                own = ground arith;
                eligible = false_of_not _ eligible;
                asked = asked;
                row = started_row bill g r now;
                saved =
                    ◌∙◌ (ap (lookup pk) (payments_after h₆))
                      (lookup-save_self pk (started_row bill g r now) b.payments);
                opened = started_row-IsOpened bill g r now;
                others = λ j ne.
                    ◌∙◌ (ap (lookup j) (payments_after h₆))
                      (lookup-save_ne j pk (started_row bill g r now) b.payments ne);
                attempts = cc h₆;
                world = cc h₆;
              }
            ]
    ]

-- A payment that is neither PAID nor PENDING is never verified.
refused_row :
    (env : Env) (pk now : ℕ) (p : PaymentRow) (b out : Bank)
    → lookup pk b.payments ≡ some p
    → is_paid p.status ≡ false
    → verify env pk now b ≡ ok (true, out)
    → is_pending p.status ≡ true
unfolding verify
refused_row env pk now p b out here unpaid h = elim (Bool-cases (is_pending p.status)) [
  | inl e ↦ e
  | inr e ↦ absurd (let (x, y) = pair-injective (rw (here, unpaid, e) at h) in cc x)
]

opened_unpaid :
    (bill : Bill) (g : GatewayRow) (r : InitResponse) (now : ℕ) (row : PaymentRow)
    → IsOpened bill g r now row
    → is_paid row.status ≡ false
opened_unpaid bill g r now row o = elim o.verdict [
  | inl (taken, status, reference) ↦ rw status refl
  | inr (refused, status, reference) ↦ rw status refl
]

-- A payment that is started for an invoice, in a table of invoices under their own ids, and then
-- verified with the answer yes leaves the invoice PAID.
pub start_pays :
    (site : Site) (env : Env) (bill : Bill) (gateway : Option GatewayRow) (pk now later : ℕ)
    (b between out : Bank)
    → AreNumbered b.world.bills
    → lookup bill.invoice_id b.world.bills ≡ some bill
    → start site bill gateway pk now b ≡ ok between
    → verify env pk later between ≡ ok (true, out)
    → (paid : Bill) × (lookup bill.invoice_id out.world.bills ≡ some paid)
      × (paid.wage_data.status ≡ InvoiceStatus.paid)
start_pays site env bill gateway pk now later b between out numbered there h k =
    let s = start-Started site bill gateway pk now b between h in
    let pending =
      refused_row env pk later s.row between out s.saved
        (opened_unpaid bill s.used s.answer now s.row s.opened) k in
    verify_pays env pk later bill.invoice_id s.row bill between out (rw s.world numbered) s.saved
      pending s.opened.invoice (rw s.world there) s.issued k

-- The test of the online flag never fires on settings that were saved.
online_flag_saved :
    (ps : PaymentSettings) → check_settings (save_settings ps) ≢ err Error.online_not_enabled
unfolding check_settings save_settings
online_flag_saved ps h = ground arith

-- ===== src/Settlement/Claims/Layer2.antt =====
-- Claims on invoices across the rewriting of a batch and the build of a Layer 2 batch.
use rasti_kiro_gpt.Common.{
  ℕ, suc, ◌≤◌, ◌<◌, ◌≡◌, refl, ap, true, false, none, some, ltb, arith, Bool-cases, inl, inr,
}
use rasti_kiro_gpt.Common.Table.{Table, lookup, save, lookup-save_self}
use rasti_kiro_gpt.Payouts.Escrow.Table.{IsValid}
use rasti_kiro_gpt.Settlement.Books.{Books, Batch, Level, is_live, is_failed}
use rasti_kiro_gpt.Settlement.Batches.{create_batch, new_batch}
use rasti_kiro_gpt.Settlement.Builder.{BuildResult}
use rasti_kiro_gpt.Settlement.Builder.Closed.{AreBelow}
use rasti_kiro_gpt.Settlement.Builder.Layer2.{Grows, Built2}
use rasti_kiro_gpt.Settlement.Claims.{count_claims, save-Weakens, fresh_live, Weakens-count}
use rasti_kiro_gpt.Settlement.Claims.Layer1.{IsGuarded, AreBelow-mono, fresh-save}

-- Books that differ in the row of one stored live batch, and in what holds no claims.
pub record Rewrites (b out : Books) : Type 0 where
  pub pk : ℕ
  pub was : Batch
  pub row : Batch
  pub found : lookup pk b.batches ≡ some was
  pub live : is_failed was.status ≡ false
  pub batches : out.batches ≡ save pk row b.batches
  pub items : out.items ≡ b.items
  pub next : out.next_batch ≡ b.next_batch
  pub invoices : out.invoices ≡ b.invoices
  pub valid : IsValid b.escrows → IsValid out.escrows

found-live :
    (pk : ℕ) (was : Batch) (t : Table Batch)
    → lookup pk t ≡ some was
    → is_failed was.status ≡ false
    → is_live t pk ≡ true
unfolding is_live
found-live pk was t found live = ground (arith, found, live)

stored_key :
    (n pk : ℕ) (was : Batch) (t : Table Batch)
    → ((k : ℕ) → n ≤ k → lookup k t ≡ none)
    → lookup pk t ≡ some was
    → pk < n
stored_key n pk was t fresh found = elim (Bool-cases (ltb pk n)) [
  | inl e ↦ ground arith
  | inr e ↦ absurd (let x = fresh pk (ground arith) in cc)
]

pub Rewrites-IsGuarded : (b out : Books) → Rewrites b out → IsGuarded b → IsGuarded out
Rewrites-IsGuarded b out w g =
    let v = g.sound in
    let key = stored_key b.next_batch w.pk w.was b.batches v.fresh w.found in
    let live = found-live w.pk w.was b.batches w.found w.live in
    record {
      sound = record {
        below = rw (w.items, w.next) v.below;
        fresh = rw (w.next, w.batches) (fresh-save b.next_batch w.pk w.row b.batches key v.fresh);
        escrows = w.valid v.escrows;
        distinct = rw w.invoices v.distinct;
      };
      exclusive = λ c i.
          rw (w.items, w.batches)
            (omega (
              arith,
              Weakens-count b.batches (save w.pk w.row b.batches) c i b.items
                  (save-Weakens w.pk w.row b.batches live),
              g.exclusive c i,
            ));
    }

-- What items for ledger entries leave as it is.
record Grown (pk : ℕ) (b out : Books) : Type 0 where
  batches : out.batches ≡ b.batches
  next : out.next_batch ≡ b.next_batch
  invoices : out.invoices ≡ b.invoices
  escrows : out.escrows ≡ b.escrows
  count : (t : Table Batch) (c i : ℕ) → count_claims t c i out.items ≡ count_claims t c i b.items
  below : (n : ℕ) → pk < n → AreBelow n b.items → AreBelow n out.items

Grows-Grown : {pk : ℕ} {b out : Books} → Grows pk b out → Grown pk b out
unfolding count_claims
Grows-Grown Grows.same = record {
  batches = refl;
  next = refl;
  invoices = refl;
  escrows = refl;
  count = λ t c i. refl;
  below = λ n h v. v;
}
Grows-Grown (Grows.adds company key amount g) =
    let w = Grows-Grown g in
    record {
      batches = w.batches;
      next = w.next;
      invoices = w.invoices;
      escrows = w.escrows;
      count = λ t c i. ground (arith, w.count t c i);
      below = λ n h v. (h, w.below n h v);
    }

create-IsGuarded :
    (company : ℕ) (level : Level) (b : Books)
    → IsGuarded b
    → IsGuarded (create_batch company level b)
unfolding create_batch
create-IsGuarded company level b g =
    let v = g.sound in
    let n = b.next_batch in
    let row = new_batch company level in
    let live = fresh_live n b.batches (v.fresh n (omega arith)) in
    record {
      sound = record {
        below = AreBelow-mono n (suc n) b.items (omega arith) v.below;
        fresh = fresh-save (suc n) n row b.batches (omega arith) (λ k h. v.fresh k (omega arith));
        escrows = v.escrows;
        distinct = v.distinct;
      };
      exclusive = λ c i. omega (
        arith,
        Weakens-count b.batches (save n row b.batches) c i b.items
            (save-Weakens n row b.batches live),
        g.exclusive c i,
      );
    }

Grown-IsGuarded :
    (pk : ℕ) (b out : Books) → Grown pk b out → pk < b.next_batch → IsGuarded b → IsGuarded out
Grown-IsGuarded pk b out w key g =
    let v = g.sound in
    record {
      sound = record {
        below = rw w.next (w.below b.next_batch key v.below);
        fresh = rw (w.next, w.batches) v.fresh;
        escrows = rw w.escrows v.escrows;
        distinct = rw w.invoices v.distinct;
      };
      exclusive = λ c i. rw (w.batches, w.count b.batches c i) (g.exclusive c i);
    }

pub layer2-IsGuarded :
    (company : ℕ) (b out : Books) (r : BuildResult)
    → Built2 company b r out
    → IsGuarded b
    → IsGuarded out
unfolding create_batch
layer2-IsGuarded company b out r Built2.nothing g = g
layer2-IsGuarded company b out r (Built2.batched {mid} grows (row, e)) g =
    let n = b.next_batch in
    let new = new_batch company Level.org_to_provider in
    let w = Grows-Grown grows in
    let started = create-IsGuarded company Level.org_to_provider b g in
    let guarded =
      Grown-IsGuarded n (create_batch company Level.org_to_provider b) mid w (omega arith)
        started in
    let wrote : Rewrites mid out = record {
      pk = n;
      was = new;
      row = row;
      found = rw w.batches (lookup-save_self n new b.batches);
      live = refl;
      batches = ap (λ d. d.batches) e;
      items = ap (λ d. d.items) e;
      next = ap (λ d. d.next_batch) e;
      invoices = ap (λ d. d.invoices) e;
      valid = λ v. rw (ap (λ d. d.escrows) e) v;
    } in
    Rewrites-IsGuarded mid out wrote guarded

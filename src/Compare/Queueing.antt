-- ===== src/Compare/Queueing.antt =====
-- The results of the second instance that infer_queueing puts in place of its own.
use Prim.Native.String.{compare}
use text.Mathlib.Text.{is_lt}
use mlab_ns.Base.{
  String, true, ◌&&◌, keep, refl, sym, ◌∙◌, eq_iff, arith, List, [], ◌∷◌, ◌≡◌, subst, if_elim, ◌==◌,
}
use mlab_ns.Base.Errors.{ok, >>=-eq-ok, ok-injective}
use mlab_ns.Lookup.{JsonData}
use mlab_ns.Compare.{node_and_site, occurs_in, munged, infer_queueing}

-- Whether two servers are of one site, and the first has the lesser name.
abbrev pub IsBehind : String × String → String × String → Type 0
IsBehind (node, site) (node', site') = (site ≡ site') × (is_lt (compare node node') ≡ true)

-- What stands for a result d of the first instance. The first result e of the second instance that
-- names the site of d stands for it, unless e is of a later server of that site; then d stands for
-- itself.
pub record Stands (others : List JsonData) (d m : JsonData) : Type 0 where
  pub place : String × String
  pub place_found : node_and_site d.fqdn ≡ ok place
  pub e : JsonData
  pub rest : List JsonData
  pub first : keep (λ (x : JsonData). occurs_in place.1 x.fqdn) others ≡ e ∷ rest
  pub place' : String × String
  pub place'_found : node_and_site e.fqdn ≡ ok place'
  pub queueing : IsBehind place place' → m ≡ d
  pub other : ¬ IsBehind place place' → m ≡ e

-- One for each, in order.
pub data AllStand (others : List JsonData) : List JsonData → List JsonData → Type 0 where
  none_left : AllStand others [] []
  stands :
      (d m : JsonData) (ds ms : List JsonData)
      → Stands others d m
      → AllStand others ds ms
      → AllStand others (d ∷ ds) (m ∷ ms)

munged-Stands :
    (others : List JsonData) (d m : JsonData) (node site : String) (named : List JsonData)
    → node_and_site d.fqdn ≡ ok (node, site)
    → keep (λ (x : JsonData). occurs_in site x.fqdn) others ≡ named
    → munged d node site named ≡ ok m
    → Stands others d m
unfolding munged
munged-Stands others d m node site [] at h e = absurd (cc)
munged-Stands others d m node site (x ∷ xs) at h e =
    let ((node', site'), found, chosen) = >>=-eq-ok (node_and_site x.fqdn) _ e in
    record {
      place = (node, site);
      place_found = at;
      e = x;
      rest = xs;
      first = h;
      place' = (node', site');
      place'_found = found;
      queueing =
          λ (same, less). ok-injective (sym chosen ∙ rw ((eq_iff site site').1 same, less) refl);
      other = λ no.
          if_elim (λ (y : JsonData). ok y ≡ ok m → m ≡ x)
            (site == site' && is_lt (compare node node')) d x
            (λ b _. absurd (no ((eq_iff site site').0 (ground (arith, b)), ground (arith, b))))
            (λ _ same. sym (ok-injective same)) chosen;
    }

-- Where infer_queueing ends without an exception, there is one result for each of the first instance,
-- in order: the first one of the second instance that names its site, unless that is of a later
-- server of the same site; then it is the result itself.
pub infer_queueing-AllStand :
    (ds others ms : List JsonData) → infer_queueing ds others ≡ ok ms → AllStand others ds ms
unfolding infer_queueing
infer_queueing-AllStand [] others ms e = subst (AllStand others []) (ok-injective e) none_left
infer_queueing-AllStand (d ∷ ds) others ms e =
    let ((node, site), at, e1) = >>=-eq-ok (node_and_site d.fqdn) _ e in
    let (m, got, e2) = >>=-eq-ok (munged d node site _) _ e1 in
    let (rest, more, e3) = >>=-eq-ok (infer_queueing ds others) _ e2 in
    subst (AllStand others (d ∷ ds)) (ok-injective e3) (
      stands d m ds rest (munged-Stands others d m node site _ at refl got)
        (infer_queueing-AllStand ds others rest more))

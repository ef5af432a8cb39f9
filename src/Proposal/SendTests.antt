-- ===== src/Proposal/SendTests.antt =====
-- What the tests of the send gate (src/proposal/sendGate.ts) ask of a proposal.
use kerf_app.Common.{
  Bool, Bool-cases, List, Member, Option, String, [], any_iff, arith, false, inl, inr, is_empty,
  is_some, none, not, or_else, refl, some, subst, sym, true, ℕ, ◌&&◌, ◌||◌, ◌↔◌, ◌∷◌, ◌≡◌, ◌≢◌, ◌⊎◌,
}
use kerf_app.Common.Int.{ltb_ℤ, pos, ℤ, ◌<ℤ◌, ◌≤ℤ◌}
use kerf_app.Common.Text.{any_visible, codes, is_space}
use kerf_app.Proposal.SendGate.{
  CsiDivision, ProposalArtifact, ProposalLine, ProposalSection, has_evidence, is_visible,
  is_visible_given, is_window_set, pii_complete, send_gate_total_ceiling_cents,
  send_gate_total_floor_cents,
}

-- Some code point of the text is no white space.
abbrev pub IsVisible : String → Type 0
IsVisible s = (c : ℕ) × Member c (codes s) × (is_space c ≡ false)

-- The client has a name, an address for mail and a line of a postal address.
abbrev pub HasClient : ProposalArtifact → Type 0
HasClient p =
    IsVisible p.client.name
    × ((email : String) × (p.client.contact_email ≡ some email) × IsVisible email)
    × ((line : String) × Member line p.client.address_lines × IsVisible line)

-- There is a source reference, a decision packet, or a line that was taken from a scaffold.
abbrev pub HasEvidence : ProposalArtifact → Type 0
HasEvidence p =
    (p.source_refs ≢ [])
    ⊎ ((packet : String) × (p.decision_packet_id ≡ some packet))
    ⊎ ((d : CsiDivision) × Member d p.divisions
        × ((s : ProposalSection) × Member s d.sections
            × ((l : ProposalLine) × Member l s.lines
                × ((from : String) × (l.scaffold_provenance ≡ some from)))))

-- The proposal ends on a date, after a positive number of days.
abbrev pub HasWindow : ProposalArtifact → Type 0
HasWindow p =
    ((until : String) × (p.valid_until_date ≡ some until) × IsVisible until)
    × (pos 0 <ℤ p.validity_days)

-- The proposal has what it takes to be sent: the client's name, mail and address, a total between
-- the floor and the ceiling that is not below the subtotal, a source, a window of validity and a
-- signatory.
pub record IsSendable (p : ProposalArtifact) : Type 0 where
  pub client : HasClient p
  pub floor : send_gate_total_floor_cents ≤ℤ p.total_cents
  pub ceiling : p.total_cents ≤ℤ send_gate_total_ceiling_cents
  pub sourced : HasEvidence p
  pub window : HasWindow p
  pub signatory : IsVisible p.signatory_name
  pub covered : p.subtotal_cents ≤ℤ p.total_cents

visible_iff : (s : List ℕ) → (any_visible s ≡ true) ↔ ((c : ℕ) × Member c s × (is_space c ≡ false))
visible_iff [] = (λ h. cc, λ (c, m, n). absurd m)
visible_iff (c ∷ s) = (
  λ h. elim (Bool-cases (is_space c)) [
    | inl blank ↦ let (d, m, n) = (visible_iff s).0 (ground arith) in (d, inr m, n)
    | inr seen ↦ (c, inl refl, seen)
  ],
  λ (d, m, n). elim m [
    | inl e ↦
        let seen : is_space c ≡ false = subst (λ x. is_space x ≡ false) (sym e) n in ground arith
    | inr later ↦ let rest : any_visible s ≡ true = (visible_iff s).1 (d, later, n) in ground arith
  ],
)

pub IsVisible-iff : (s : String) → (is_visible s ≡ true) ↔ IsVisible s
IsVisible-iff s = visible_iff (codes s)

given_iff :
    (o : Option String) → (is_visible_given o ≡ true) ↔ ((s : String) × (o ≡ some s) × IsVisible s)
given_iff none = (λ h. cc, λ (s, e, v). cc)
given_iff (some s) = (
  λ h. (s, refl, (IsVisible-iff s).0 h),
  λ (t, e, v). (IsVisible-iff s).1 (subst (λ o. IsVisible (or_else o s)) (sym e) v),
)

is_some_iff : (o : Option String) → (is_some o ≡ true) ↔ ((s : String) × (o ≡ some s))
is_some_iff none = (λ h. cc, λ (s, e). cc)
is_some_iff (some s) = (λ h. (s, refl), λ t. refl)

and_iff :
    {A B : Type 0} (a b : Bool) → (a ≡ true) ↔ A → (b ≡ true) ↔ B → ((a && b) ≡ true) ↔ (A × B)
and_iff true b f g = (λ h. (f.0 refl, g.0 h), λ (x, y). g.1 y)
and_iff false b f g = (λ h. cc, λ (x, y). f.1 x)

or_iff : {A B : Type 0} (a b : Bool) → (a ≡ true) ↔ A → (b ≡ true) ↔ B → ((a || b) ≡ true) ↔ (A ⊎ B)
or_iff true b f g = (λ h. inl (f.0 refl), λ t. refl)
or_iff false b f g =
    (λ h. inr (g.0 h), λ t. elim t [ inl x ↦ let no = f.1 x in cc | inr y ↦ g.1 y ])

and3_iff :
    {A B C : Type 0} (a b c : Bool)
    → (a ≡ true) ↔ A
    → (b ≡ true) ↔ B
    → (c ≡ true) ↔ C
    → ((a && b && c) ≡ true) ↔ (A × B × C)
and3_iff a b c f g h =
    let all = and_iff (a && b) c (and_iff a b f g) h in
    (λ e. let ((x, y), z) = all.0 e in (x, y, z), λ (x, y, z). all.1 ((x, y), z))

or3_iff :
    {A B C : Type 0} (a b c : Bool)
    → (a ≡ true) ↔ A
    → (b ≡ true) ↔ B
    → (c ≡ true) ↔ C
    → ((a || b || c) ≡ true) ↔ (A ⊎ B ⊎ C)
or3_iff a b c f g h =
    let some_of = or_iff (a || b) c (or_iff a b f g) h in
    (
      λ e. elim (some_of.0 e) [
        | inl t ↦ elim t [ inl x ↦ inl x | inr y ↦ inr (inl y) ]
        | inr z ↦ inr (inr z)
      ],
      λ t.
          some_of.1 (elim t [
            | inl x ↦ inl (inl x)
            | inr u ↦ elim u [ inl y ↦ inl (inr y) | inr z ↦ inr z ]
          ]),
    )

filled_iff : (xs : List String) → (not (is_empty xs) ≡ true) ↔ (xs ≢ [])
filled_iff [] = (λ h. cc, λ n. absurd (n refl))
filled_iff (x ∷ xs) = (λ h e. cc, λ n. refl)

pub pii_complete_iff : (p : ProposalArtifact) → (pii_complete p ≡ true) ↔ HasClient p
unfolding pii_complete
pii_complete_iff p =
    and3_iff _ _ _ (IsVisible-iff p.client.name) (given_iff p.client.contact_email)
      (any_iff is_visible IsVisible-iff p.client.address_lines)

pub has_evidence_iff : (p : ProposalArtifact) → (has_evidence p ≡ true) ↔ HasEvidence p
unfolding has_evidence
has_evidence_iff p = or3_iff _ _ _ (filled_iff p.source_refs) (is_some_iff p.decision_packet_id) (
    any_iff _
      (λ d. any_iff _ (λ s. any_iff _ (λ l. is_some_iff l.scaffold_provenance) s.lines) d.sections)
      p.divisions)

positive_iff : (a : ℤ) → (ltb_ℤ (pos 0) a ≡ true) ↔ (pos 0 <ℤ a)
positive_iff a = ground arith

pub is_window_set_iff : (p : ProposalArtifact) → (is_window_set p ≡ true) ↔ HasWindow p
unfolding is_window_set
is_window_set_iff p =
    and_iff (is_visible_given p.valid_until_date) _ (given_iff p.valid_until_date)
      (positive_iff p.validity_days)

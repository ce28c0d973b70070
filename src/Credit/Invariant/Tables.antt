-- ===== src/Credit/Invariant/Tables.antt =====
-- The tables of orders stay well formed when a reservation is inserted or updated and when its
-- assignments change.
use fo_c.Base.{
  ℕ, suc, ◌≤◌, ◌≡◌, ◌≢◌, ◌⊎◌, sym, ap, ◌∙◌, inl, inr, ◌&&◌, none, some, arith, ◌==◌, if◌then◌else◌,
  Bool-cases,
}
use fo_c.Base.Dict.{Dict, lookup, insert, lookup-insert, lookup-insert_self}
use fo_c.Credit.Types.{Status, held, assigned, released, settled, applied, Reservation, Assignment}
use fo_c.Credit.Invariant.{Assignments, Revisions, HasOffer, Shape, IsRow, Rows}

-- The revisions after a row is stored.
abbrev pub recorded_row : Reservation → Revisions → Revisions
recorded_row r rev = λ o n. if (o == r.order_id) && (n == r.revision) then some r else rev o n

-- The assignments of an order that were there are there unchanged.
abbrev pub Extends : Assignments → Assignments → ℕ → Type 0
Extends asg asg' o = (i : ℕ) (a : Assignment) → asg o i ≡ some a → asg' o i ≡ some a

HasOffer-extend :
    (asg asg' : Assignments) (o : ℕ) (r : Reservation)
    → Extends asg asg' o
    → HasOffer asg o r
    → HasOffer asg' o r
HasOffer-extend asg asg' o r same h = record {
  id = h.id;
  offer = h.offer;
  courier = h.courier;
  has_id = h.has_id;
  has_row = same h.id h.offer h.has_row;
  has_courier = h.has_courier;
  is_applied = h.is_applied;
}

Shape-extend :
    (asg asg' : Assignments) (o : ℕ) (t : Status) (r : Reservation)
    → Extends asg asg' o
    → Shape asg o t r
    → Shape asg' o t r
unfolding HasOffer-extend
Shape-extend asg asg' o held r same h = h
Shape-extend asg asg' o assigned r same h = record {
  requester = h.requester;
  has_requester = h.has_requester;
  amount_pos = h.amount_pos;
  holds_more = h.holds_more;
  has_offer = HasOffer-extend asg asg' o r same h.has_offer;
  holds_offer = h.holds_offer;
  no_settlement = h.no_settlement;
}
Shape-extend asg asg' o released r same h = h
Shape-extend asg asg' o settled r same h = record {
  requester = h.requester;
  has_requester = h.has_requester;
  holds_nothing = h.holds_nothing;
  has_offer = HasOffer-extend asg asg' o r same h.has_offer;
  settlement = h.settlement;
  has_settlement = h.has_settlement;
  paid_nonneg = h.paid_nonneg;
  returned_nonneg = h.returned_nonneg;
  splits_offer = h.splits_offer;
}

pub IsRow-extend :
    (asg asg' : Assignments) (o : ℕ) (r : Reservation)
    → Extends asg asg' o
    → IsRow asg o r
    → IsRow asg' o r
IsRow-extend asg asg' o r same h = record {
  keyed = h.keyed;
  shape = Shape-extend asg asg' o r.status r same h.shape;
}

-- Two assignment tables that differ at one order only.
abbrev pub AgreeOff : ℕ → Assignments → Assignments → Type 0
AgreeOff key asg asg' = (o : ℕ) → o ≢ key → (i : ℕ) → asg' o i ≡ asg o i

abbrev pub AppliedAt : ℕ → Assignments → Reservation → Type 0
AppliedAt key asg r =
    (i : ℕ) (a : Assignment) → asg key i ≡ some a → a.status ≡ applied → r.assignment_id ≡ some i

found_row :
    (key o : ℕ) (row r : Reservation) (d : Dict Reservation)
    → lookup o (insert key row d) ≡ some r
    → ((o ≡ key) × (r ≡ row)) ⊎ ((o ≢ key) × (lookup o d ≡ some r))
found_row key o row r d h = elim (Bool-cases (key == o)) [
  | inl same ↦ inl (ground arith, ground (arith, lookup-insert key o row d))
  | inr other ↦ inr (ground arith, ground (arith, lookup-insert key o row d))
]

other_row :
    (key o : ℕ) (row : Reservation) (d : Dict Reservation)
    → o ≢ key
    → lookup o (insert key row d) ≡ lookup o d
other_row key o row d h = ground (arith, lookup-insert key o row d)

other_revision :
    (key o n : ℕ) (row : Reservation) (rev : Revisions)
    → row.order_id ≡ key
    → o ≢ key
    → recorded_row row rev o n ≡ rev o n
other_revision key o n row rev e h = ground arith

-- A revision that is found after a row is stored is the row, or was there before.
found_revision :
    (o n : ℕ) (row q : Reservation) (rev : Revisions)
    → recorded_row row rev o n ≡ some q
    → ((o ≡ row.order_id) × (n ≡ row.revision)) ⊎ (rev o n ≡ some q)
found_revision o n row q rev h = ground arith

pub eq_cases : (a b : ℕ) → (a ≡ b) ⊎ (a ≢ b)
eq_cases a b = elim (Bool-cases (a == b)) [
  | inl e ↦ inl (ground arith)
  | inr e ↦ inr (ground arith)
]

module _ (d : Dict Reservation) (asg asg' : Assignments) (rev : Revisions) (key : ℕ)
    (rows : Rows d asg rev) (agree : AgreeOff key asg asg') where
  row_off : (o : ℕ) (r : Reservation) → o ≢ key → lookup o d ≡ some r → IsRow asg' o r
  row_off o r off h = IsRow-extend asg asg' o r (λ i a e. agree o off i ∙ e) (rows.row o r h)

  applied_off :
      (o i : ℕ) (a : Assignment)
      → o ≢ key
      → asg' o i ≡ some a
      → a.status ≡ applied
      → (r : Reservation) × (lookup o d ≡ some r) × (r.assignment_id ≡ some i)
  applied_off o i a off h = rows.applied_once o i a (sym (agree o off i) ∙ h)

  -- The assignments of one order change, its reservation does not.
  pub Rows-assign :
      (r : Reservation)
      → lookup key d ≡ some r
      → IsRow asg' key r
      → AppliedAt key asg' r
      → Rows d asg' rev
  Rows-assign r known is_row at = record {
    row = λ o q h. elim (eq_cases o key) [
      | inl same ↦ let e : q ≡ r = cc in rw (same, e) is_row
      | inr off ↦ row_off o q off h
    ];
    recorded = rows.recorded;
    past = rows.past;
    applied_once = λ o i a h p. elim (eq_cases o key) [
      | inl same ↦ (r, rw same known, at i a (rw same at h) p)
      | inr off ↦ applied_off o i a off h p
    ];
  }

  module _ (row : Reservation) (is_row : IsRow asg' key row) (at : AppliedAt key asg' row) where
    stored_row : (o : ℕ) (r : Reservation) → lookup o (insert key row d) ≡ some r → IsRow asg' o r
    stored_row o r h = elim (found_row key o row r d h) [
      | inl (same, e) ↦ rw (same, e) is_row
      | inr (off, old) ↦ row_off o r off old
    ]

    stored_revision :
        (o : ℕ) (r : Reservation)
        → lookup o (insert key row d) ≡ some r
        → recorded_row row rev o r.revision ≡ some r
    stored_revision o r h = elim (found_row key o row r d h) [
      | inl (same, e) ↦ rw (e, same) (ground (arith, is_row.keyed))
      | inr (off, old) ↦
          other_revision key o r.revision row rev is_row.keyed off ∙ rows.recorded o r old
    ]

    stored_applied :
        (o i : ℕ) (a : Assignment)
        → asg' o i ≡ some a
        → a.status ≡ applied
        → (r : Reservation) × (lookup o (insert key row d) ≡ some r) × (r.assignment_id ≡ some i)
    stored_applied o i a h p = elim (eq_cases o key) [
      | inl same ↦ (row, rw same (lookup-insert_self key row d), at i a (rw same at h) p)
      | inr off ↦
          let (r, known, e) = applied_off o i a off h p in (r, other_row key o row d off ∙ known, e)
    ]

    stored_past :
        ((n : ℕ) (q : Reservation) → rev key n ≡ some q → n ≤ row.revision)
        → (o n : ℕ) (q : Reservation) → recorded_row row rev o n ≡ some q
        → (r : Reservation) × (lookup o (insert key row d) ≡ some r) × (n ≤ r.revision)
    stored_past later o n q h = elim (eq_cases o key) [
      | inl same ↦ (
        row,
        rw same (lookup-insert_self key row d),
        elim (found_revision o n row q rev h) [
          | inl (_, e) ↦ omega arith
          | inr old ↦ later n q (rw same at old)
        ],
      )
      | inr off ↦
          let (r, known, le) =
            rows.past o n q (sym (other_revision key o n row rev is_row.keyed off) ∙ h) in
          (r, other_row key o row d off ∙ known, le)
    ]

    stored_lem :
        ((n : ℕ) (q : Reservation) → rev key n ≡ some q → n ≤ row.revision)
        → Rows (insert key row d) asg' (recorded_row row rev)
    stored_lem later = record {
      row = stored_row;
      recorded = stored_revision;
      past = stored_past later;
      applied_once = stored_applied;
    }

    -- A new reservation is stored.
    pub Rows-insert : lookup key d ≡ none → Rows (insert key row d) asg' (recorded_row row rev)
    Rows-insert new = stored_lem (λ n q h. let (r, known, _) = rows.past key n q h in absurd (cc))

    -- A reservation is replaced by its next revision.
    pub Rows-update :
        (old : Reservation)
        → lookup key d ≡ some old
        → row.revision ≡ suc old.revision
        → Rows (insert key row d) asg' (recorded_row row rev)
    Rows-update old known next = stored_lem (λ n q h.
        let (r, found, le) = rows.past key n q h in
        let e : r ≡ old = cc in omega (arith, le, next, ap (λ (x : Reservation). x.revision) e))

-- ===== src/Operations/Audit/Commitment.antt =====
-- The hash that the log ends with commits to the whole log: two logs that pass the check and end with
-- the same hash are equal, if no two records that occur have the same digest.
use palwakf_agentic_ai_syste.Prelude.{
  String, ◌≡◌, refl, sym, ap, ◌∙◌, Option, none, some, List, [], ◌∷◌, arith, Elem, ◌⊎◌, inl, inr,
  true, map,
}
use palwakf_agentic_ai_syste.Operations.Schema.{AuditRecord, AuditRow, Db, Digests}
use palwakf_agentic_ai_syste.Operations.Audit.{recorded, audit_integrity}
use palwakf_agentic_ai_syste.Operations.Audit.Chain.{
  IsChained, terminal, audit_integrity_iff, terminal-none,
}
use mathlib.Core.Path.{ap₂}
use mathlib.Core.List.{reverse_aux, reverse, reverse-reverse}

-- The log read backwards: the newest event first.
abbrev head_hash : List AuditRow → Option String
head_hash [] = none
head_hash (row ∷ older) = some row.event_hash

Elem-reverse_aux :
    (a : AuditRow) (xs ys : List AuditRow) → Elem a (reverse_aux xs ys) → Elem a xs ⊎ Elem a ys
Elem-reverse_aux a [] ys e = inr e
Elem-reverse_aux a (x ∷ xs) ys e = elim (Elem-reverse_aux a xs (x ∷ ys) e) [
  | inl there ↦ inl (inr there)
  | inr (inl here) ↦ inl (inl here)
  | inr (inr old) ↦ inr old
]

module _ (h : Digests) where
  abbrev IsChainedBack : List AuditRow → Type 0
  IsChainedBack [] = Unit
  IsChainedBack (row ∷ older) =
      (row.previous_hash ≡ head_hash older)
      × (row.event_hash ≡ h.audit_hash (recorded h row))
      × IsChainedBack older

  chained-back :
      (older rows : List AuditRow)
      → IsChainedBack older
      → IsChained h (head_hash older) rows
      → IsChainedBack (reverse_aux rows older)
  chained-back older [] b c = b
  chained-back older (row ∷ rows) b c = chained-back (row ∷ older) rows (c.0, c.1, b) c.2

  head-back :
      (older rows : List AuditRow)
      → head_hash (reverse_aux rows older) ≡ terminal h (head_hash older) rows
  head-back older [] = refl
  head-back older (row ∷ rows) = head-back (row ∷ older) rows

  -- No two of these events have the same digest and differ.
  abbrev pub NoCollision : List AuditRow → List AuditRow → Type 0
  NoCollision rows others =
      (a b : AuditRow)
      → Elem a rows
      → Elem b others
      → h.audit_hash (recorded h a) ≡ h.audit_hash (recorded h b)
      → recorded h a ≡ recorded h b

  previous-recorded :
      (a b : AuditRow) → recorded h a ≡ recorded h b → a.previous_hash ≡ b.previous_hash
  unfolding recorded
  previous-recorded a b e = ap (λ (r : AuditRecord). r.previous_hash) e

  same_back :
      (xs ys : List AuditRow)
      → NoCollision xs ys
      → IsChainedBack xs
      → IsChainedBack ys
      → head_hash xs ≡ head_hash ys
      → map (recorded h) xs ≡ map (recorded h) ys
  same_back [] [] free a b e = refl
  same_back [] (y ∷ ys) free a b e = absurd (ground arith)
  same_back (x ∷ xs) [] free a b e = absurd (ground arith)
  same_back (x ∷ xs) (y ∷ ys) free a b e =
      let hashes : x.event_hash ≡ y.event_hash = ground arith in
      let same : recorded h x ≡ recorded h y =
        free x y (inl refl) (inl refl) (sym a.1 ∙ hashes ∙ b.1) in
      let older : head_hash xs ≡ head_hash ys = sym a.0 ∙ previous-recorded x y same ∙ b.0 in
      ap₂ (λ r rs. r ∷ rs) same
        (same_back xs ys (λ c d c_in d_in. free c d (inr c_in) (inr d_in)) a.2 b.2 older)

  map-reverse_aux :
      (xs ys : List AuditRow)
      → map (recorded h) (reverse_aux xs ys)
        ≡ reverse_aux (map (recorded h) xs) (map (recorded h) ys)
  map-reverse_aux [] ys = refl
  map-reverse_aux (x ∷ xs) ys = map-reverse_aux xs (x ∷ ys)

  -- If two logs both pass the check and end with the same hash, then they record the same events in the
  -- same order, provided no two different events in them have one digest.
  pub audit_integrity-commits :
      (db other : Db)
      → (audit_integrity h db).passed ≡ true
      → (audit_integrity h other).passed ≡ true
      → (audit_integrity h db).terminal_hash ≡ (audit_integrity h other).terminal_hash
      → NoCollision db.audit_events other.audit_events
      → map (recorded h) db.audit_events ≡ map (recorded h) other.audit_events
  audit_integrity-commits db other p q same free =
      let xs = db.audit_events in
      let ys = other.audit_events in
      let (decides_x, ends_x) = audit_integrity_iff h db in
      let (decides_y, ends_y) = audit_integrity_iff h other in
      let heads : head_hash (reverse_aux xs []) ≡ head_hash (reverse_aux ys []) =
        head-back [] xs
        ∙ terminal-none h xs
        ∙ sym ends_x
        ∙ same
        ∙ ends_y
        ∙ sym (terminal-none h ys)
        ∙ sym (head-back [] ys) in
      let back =
        same_back (reverse_aux xs []) (reverse_aux ys [])
          (λ a b a_in b_in. free a b (in_log a xs a_in) (in_log b ys b_in))
          (chained-back [] xs tt (decides_x.0 p)) (chained-back [] ys tt (decides_y.0 q)) heads in
      let turned : reverse (map (recorded h) xs) ≡ reverse (map (recorded h) ys) =
        sym (map-reverse_aux xs []) ∙ back ∙ map-reverse_aux ys [] in
      sym (reverse-reverse (map (recorded h) xs))
      ∙ ap reverse turned
      ∙ reverse-reverse (map (recorded h) ys)
    where
      in_log : (a : AuditRow) (rows : List AuditRow) → Elem a (reverse_aux rows []) → Elem a rows
      in_log a rows e = elim (Elem-reverse_aux a rows [] e) [
        | inl there ↦ there
        | inr nowhere ↦ absurd nowhere
      ]

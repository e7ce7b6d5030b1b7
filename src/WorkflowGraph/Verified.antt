-- ===== src/WorkflowGraph/Verified.antt =====
-- What an accepted workflow shows.
use receipts_sdk.Prelude.{
  ℕ, zero, suc, ◌≡◌, ◌≢◌, refl, sym, ap, ◌∙◌, ◌⊎◌, inl, inr, Bool, true, false, Bool-cases, ◌&&◌,
  &&-eq-true, Option, none, some, Option-cases, is_some, List, [], ◌∷◌, Text, text_eq, text_eq_iff,
  All, All-mono, length, every, keep, includes, get_elem?, ◌==◌, if◌then◌else◌, arith,
}
use receipts_sdk.Prelude.Maps.{Map, get, put, get-put}
use receipts_sdk.Types.{Number, SignedReceipt}
use receipts_sdk.Crypto.{Platform}
use receipts_sdk.Verify.Evidence.{HasHash, HasSignature, verify_receipt_content}
use receipts_sdk.WorkflowGraph.{
  GraphOptions, workflow_id_of, same_id, else_try, add_new, first_tenant, target_workflow,
  of_tenant, run_of, id_of, by_id, recorded_parents, add_missing, missing_from, graph_of,
  reconstruct_workflow,
}
use receipts_sdk.WorkflowGraph.Verification.{
  foreign_to, foreign_of, content_holds, check_content, verify_content, verify_workflow,
}

same_id_eq : (a b : Option Text) → same_id a b ≡ true → a ≡ b
same_id_eq none none e = refl
same_id_eq none (some b) e = absurd (cc)
same_id_eq (some a) none e = absurd (cc)
same_id_eq (some a) (some b) e = ap (λ t. some t) ((text_eq_iff a b).0 e)

-- A test that holds of every receipt keeps them all.
every-keep :
    (test also : SignedReceipt → Bool) (rs : List SignedReceipt)
    → every test rs ≡ true
    → length (keep (λ r. test r && also r) rs) ≡ 0
    → All (λ r. also r ≡ false) rs
unfolding every keep
every-keep test also [] e none_kept = tt
every-keep test also (r ∷ rs) e none_kept =
    let (here, rest) = &&-eq-true (test r) (every test rs) e in
    elim (Bool-cases (also r)) [
      | inl kept ↦ absurd (ground (arith, rw (keep, here, kept) at none_kept))
      | inr left_out ↦
          (left_out, every-keep test also rs rest (rw (keep, here, left_out) at none_kept))
    ]

every-All :
    (test : SignedReceipt → Bool) (rs : List SignedReceipt)
    → every test rs ≡ true
    → All (λ r. test r ≡ true) rs
unfolding every
every-All test [] e = tt
every-All test (r ∷ rs) e = let (here, rest) = &&-eq-true _ _ e in (here, every-All test rs rest)

keep_same :
    (test : SignedReceipt → Bool) (rs : List SignedReceipt)
    → All (λ r. test r ≡ true) rs
    → keep test rs ≡ rs
unfolding keep
keep_same test [] all = refl
keep_same test (r ∷ rs) (here, all) = rw (keep, here) (ap (λ l. r ∷ l) (keep_same test rs all))

native_of_foreign :
    (tenant : Option Text) (r : SignedReceipt)
    → foreign_to tenant r ≡ false
    → of_tenant tenant r ≡ true
native_of_foreign none r e = refl
native_of_foreign (some t) r e = ground (arith, e)

tests_hold :
    (wf tenant : Option Text) (rs : List SignedReceipt)
    → All (λ r. same_id (workflow_id_of r) wf ≡ true) rs
    → All (λ r. foreign_to tenant r ≡ false) rs
    → All (λ r. (same_id (workflow_id_of r) wf && of_tenant tenant r) ≡ true) rs
tests_hold wf tenant [] same native = tt
tests_hold wf tenant (r ∷ rs) (here, same) (at_home, native) =
    (rw (here, native_of_foreign tenant r at_home) refl, tests_hold wf tenant rs same native)

-- Every receipt has its hash and a trusted signature.
abbrev pub IsContent : Platform → Map Text → SignedReceipt → Type 0
IsContent p keys r = HasHash p r.receipt × HasSignature p keys r

verify_content-IsContent :
    (p : Platform) (rank : Number → Option ℕ) (keys : Map Text) (rs : List SignedReceipt)
    → (verify_content p rank keys rs).0 ≡ true
    → All (IsContent p keys) rs
unfolding verify_content
verify_content-IsContent p rank keys [] e = tt
verify_content-IsContent p rank keys (r ∷ rs) e =
    elim (Bool-cases (content_holds (check_content p rank keys r))) [
      | inl holds ↦
          let (two, _) = &&-eq-true _ _ holds in
          let (hashed, signs) = &&-eq-true _ _ two in
          (
            verify_receipt_content p r _ hashed signs,
            verify_content-IsContent p rank keys rs (rw holds at e),
          )
      | inr fails ↦ absurd (ground (arith, rw fails at e))
    ]

-- What is found under an id is a receipt with that id.
by_id_holds :
    (rs : List SignedReceipt) (m : Map SignedReceipt) (q : Text) {r : SignedReceipt}
    → get (by_id rs m) q ≡ some r
    → (get m q ≡ some r)
      ⊎ ((i : ℕ) × (s : SignedReceipt) × (get_elem? rs i ≡ some s) × (id_of s ≡ q))
unfolding by_id
by_id_holds [] m q e = inl e
by_id_holds (s ∷ rs) m q e = elim (by_id_holds rs (put m (id_of s) s) q e) [
  | inl there ↦ elim (Bool-cases (text_eq (id_of s) q)) [
    | inl same ↦ inr (zero, s, refl, (text_eq_iff _ _).0 same)
    | inr apart ↦ inl (rw apart at (sym (get-put m (id_of s) q s) ∙ there))
  ]
  | inr (i, s', at, same) ↦ inr (suc i, s', at, same)
]

add_new-some : (seen : List Text) (t : Text) → add_new seen t ≢ []
unfolding includes
add_new-some [] t e = absurd (cc)
add_new-some (x ∷ seen) t e = elim (Bool-cases (includes (x ∷ seen) t)) [
  | inl listed ↦ absurd (ground (arith, rw listed at e))
  | inr new ↦ absurd (ground (arith, rw new at e))
]

add_missing-none :
    (ids : Map SignedReceipt) (qs seen : List Text)
    → add_missing ids qs seen ≡ []
    → (seen ≡ []) × All (λ q. is_some (get ids q) ≡ true) qs
unfolding add_missing
add_missing-none ids [] seen e = (e, tt)
add_missing-none ids (q ∷ qs) seen e =
    let (next, rest) =
      add_missing-none ids qs (if is_some (get ids q) then seen else add_new seen q) e in
    elim (Bool-cases (is_some (get ids q))) [
      | inl there ↦ (rw there at next, (there, rest))
      | inr absent ↦ absurd (add_new-some seen q (rw absent at next))
    ]

missing_from-none :
    (ids : Map SignedReceipt) (rs : List SignedReceipt) (seen : List Text)
    → missing_from ids rs seen ≡ []
    → (seen ≡ []) × All (λ r. All (λ q. is_some (get ids q) ≡ true) (recorded_parents r)) rs
unfolding missing_from
missing_from-none ids [] seen e = (e, tt)
missing_from-none ids (r ∷ rs) seen e =
    let (next, rest) = missing_from-none ids rs (add_missing ids (recorded_parents r) seen) e in
    let (none_seen, here) = add_missing-none ids (recorded_parents r) seen next in
    (none_seen, (here, rest))

-- A receipt of the list has this id.
abbrev pub IsPresent : List SignedReceipt → Text → Type 0
IsPresent rs q = (i : ℕ) × (s : SignedReceipt) × (get_elem? rs i ≡ some s) × (id_of s ≡ q)

is_some-IsPresent :
    (rs : List SignedReceipt) (q : Text) → is_some (get (by_id rs []) q) ≡ true → IsPresent rs q
unfolding get
is_some-IsPresent rs q e = elim (Option-cases (get (by_id rs []) q)) [
  | inl absent ↦ absurd (ground (arith, rw absent at e))
  | inr (r, found) ↦ elim (by_id_holds rs [] q found) [
    | inl nowhere ↦ absurd (cc)
    | inr present ↦ present
  ]
]

-- A run: receipts of one workflow and one tenant, with their content intact and no parent missing.
pub record IsRun (p : Platform) (keys : Map Text) (wf tenant : Option Text)
    (rs : List SignedReceipt) : Type 0 where
  pub one_workflow : All (λ r. workflow_id_of r ≡ wf) rs
  pub one_tenant : All (λ r. some r.receipt.tenant_id ≡ tenant) rs
  pub content : All (IsContent p keys) rs
  pub complete : All (λ r. All (IsPresent rs) (recorded_parents r)) rs

native_eq :
    (tenant : Option Text) (t : Text) (r : SignedReceipt)
    → tenant ≡ some t
    → foreign_to tenant r ≡ false
    → some r.receipt.tenant_id ≡ tenant
native_eq none t r is_some e = absurd (cc)
native_eq (some u) t r is_some e =
    ap (λ t. some t) ((text_eq_iff r.receipt.tenant_id u).0 (ground (arith, e)))

-- A list with a receipt of the workflow has a tenant.
some_tenant :
    (r : SignedReceipt) (rs : List SignedReceipt) (wf given : Option Text)
    → same_id (workflow_id_of r) wf ≡ true
    → (t : Text) × (else_try given (first_tenant (r ∷ rs) wf) ≡ some t)
unfolding first_tenant
some_tenant r rs wf (some t) here = (t, refl)
some_tenant r rs wf none here = (r.receipt.tenant_id, rw here refl)

tenants_agree :
    (rs : List SignedReceipt) (wf given : Option Text)
    → All (λ r. same_id (workflow_id_of r) wf ≡ true) rs
    → All (λ r. foreign_to (else_try given (first_tenant rs wf)) r ≡ false) rs
    → All (λ r. some r.receipt.tenant_id ≡ else_try given (first_tenant rs wf)) rs
tenants_agree [] wf given same native = tt
tenants_agree (r ∷ rs) wf given (here, same) native =
    let (t, tenant) = some_tenant r rs wf given here in
    let held = else_try given (first_tenant (r ∷ rs) wf) in
    All-mono (λ r. foreign_to held r ≡ false) (λ r. some r.receipt.tenant_id ≡ held)
      (λ r. native_eq held t r tenant) (r ∷ rs) native

parents_found :
    (rs members : List SignedReceipt)
    → All (λ r. All (λ q. is_some (get (by_id rs []) q) ≡ true) (recorded_parents r)) members
    → All (λ r. All (IsPresent rs) (recorded_parents r)) members
parents_found rs members all =
    All-mono (λ r. All (λ q. is_some (get (by_id rs []) q) ≡ true) (recorded_parents r))
      (λ r. All (IsPresent rs) (recorded_parents r))
      (λ r.
        All-mono (λ q. is_some (get (by_id rs []) q) ≡ true) (IsPresent rs) (is_some-IsPresent rs)
          (recorded_parents r))
      members all

no_texts : (xs : List Text) → length xs ≡ 0 → xs ≡ []
no_texts [] e = refl
no_texts (x ∷ xs) e = absurd (omega (arith, e))

-- An accepted workflow is one run: all its receipts have its workflow id and one tenant, each carries
-- the SHA-256 of its canonical body and a signature by a key trusted for its key id, and every parent
-- that one of them records is the id of a receipt among them.
pub verify_workflow_sound :
    (p : Platform) (rank : Number → Option ℕ) (keys : Map Text) (rs : List SignedReceipt)
    (opts : GraphOptions)
    → (verify_workflow p rank keys rs opts).valid ≡ true
    → IsRun p keys
        (verify_workflow p rank keys rs opts).workflow_id
        (else_try opts.tenant_id
          (first_tenant rs (verify_workflow p rank keys rs opts).workflow_id))
        rs
unfolding verify_workflow reconstruct_workflow graph_of run_of foreign_of
verify_workflow_sound p rank keys rs opts e =
    let wf = target_workflow rs opts in
    let tenant = else_try opts.tenant_id (first_tenant rs wf) in
    let members = run_of rs wf tenant in
    let g = graph_of rank wf members in
    let checked = (verify_content p rank keys members).0 in
    let none_missing = length g.missing_parents == 0 in
    let one = every (λ r. same_id (workflow_id_of r) wf) rs in
    let (four, no_foreign) =
      &&-eq-true (checked && none_missing && g.acyclic && one)
        (length (foreign_of rs wf tenant) == 0) e in
    let (three, single) = &&-eq-true (checked && none_missing && g.acyclic) one four in
    let (two, acyclic) = &&-eq-true (checked && none_missing) g.acyclic three in
    let (verified, complete) = &&-eq-true checked none_missing two in
    let same = every-All (λ r. same_id (workflow_id_of r) wf) rs single in
    let native =
      every-keep (λ r. same_id (workflow_id_of r) wf) (foreign_to tenant) rs single
        (ground (arith, no_foreign)) in
    let whole : run_of rs wf tenant ≡ rs =
      keep_same (λ r. same_id (workflow_id_of r) wf && of_tenant tenant r) rs
        (tests_hold wf tenant rs same native) in
    let missing : length (missing_from (by_id (run_of rs wf tenant) []) (run_of rs wf tenant) [])
        ≡ 0 =
      ground (arith, complete) in
    let (_, parents) = missing_from-none (by_id rs []) rs [] (no_texts _ (rw whole at missing)) in
    record {
      one_workflow =
          All-mono (λ r. same_id (workflow_id_of r) wf ≡ true) (λ r. workflow_id_of r ≡ wf)
            (λ r. same_id_eq (workflow_id_of r) wf) rs same;
      one_tenant = tenants_agree rs wf opts.tenant_id same native;
      content = verify_content-IsContent p rank keys rs (rw whole at verified);
      complete = parents_found rs rs parents;
    }

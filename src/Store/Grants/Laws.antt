-- ===== src/Store/Grants/Laws.antt =====
-- The grants as a set of permissions: what each operation changes of it.
use cert_keeper.Prelude.{
  ℕ, Text, Bool, true, false, not, ◌&&◌, ◌||◌, ◌==◌, text_eq, Result, ok, err, List, [], ◌∷◌, ◌++◌,
  any, filter, is_blank, ◌≡◌, refl, arith, ap, sym, ◌∙◌, text_beq_iff, text_beq_sym, if◌then◌else◌,
  if_by, if_either, All,
}
use cert_keeper.Store.Sql.Laws.{AllPairs, AllPairs-snoc, AllPairs-filter}
use cert_keeper.Store.Schema.{Db, StoreError, invalid_argument}
use cert_keeper.Store.Domains.{is_certificate_domain}
use cert_keeper.Store.Jobs.Values.{member_text}
use cert_keeper.Store.Grants

-- The set of permissions that the rows stand for.
abbrev pub Permissions : Type 0
Permissions = Text → Text → Text → Bool

abbrev pub permissions_of : List Grants.TokenGrant → Permissions
permissions_of grants token_id domain permission =
    any (Grants.is_grant_of token_id domain permission) grants

abbrev pub is_same : Text → Text → Text → Text → Text → Text → Bool
is_same t d p u e q = t == u && d == e && p == q

pub data Change : Type 0 where
  grants_at : ℕ → Text → Text → Text → Change
  revokes : Text → Text → Text → Change

-- The rows after a change, be it refused or not.
unfoldable pub change : Db → List Grants.TokenGrant → Change → List Grants.TokenGrant
change db rows (grants_at now t d p) = (Grants.grant db now rows t d p).0
change db rows (revokes t d p) = (Grants.revoke rows t d p).0

unfoldable pub change_all : Db → List Grants.TokenGrant → List Change → List Grants.TokenGrant
change_all db rows [] = rows
change_all db rows (c ∷ cs) = change_all db (change db rows c) cs

abbrev pub is_present : Db → Text → Text → Bool
is_present db t d = member_text t db.tokens && member_text d db.certs

-- The set after a change: a grant to a token that is there, on a domain that is there, adds its
-- permission; a revocation takes it away.
unfoldable pub changed_set : Db → Permissions → Change → Permissions
changed_set db s (grants_at now t d p) u e q =
    s u e q || (Grants.is_grantable t d p && is_present db t d && is_same t d p u e q)
changed_set db s (revokes t d p) u e q =
    s u e q && not (is_certificate_domain d && Grants.is_permission p && is_same t d p u e q)

unfoldable pub changed_set_all : Db → Permissions → List Change → Permissions
changed_set_all db s [] = s
changed_set_all db s (c ∷ cs) = changed_set_all db (changed_set db s c) cs

any-snoc :
    {A : Type 0} (p : A → Bool) (xs : List A) (x : A) → any p (xs ++ x ∷ []) ≡ (any p xs || p x)
any-snoc p [] x = ground arith
any-snoc p (y ∷ ys) x = ground (arith, any-snoc p ys x)

-- A test that only accepts what another refuses finds as much in what the other leaves.
any-filter :
    {A : Type 0} (p q : A → Bool) (b : Bool) (xs : List A)
    → ((x : A) → p x ≡ true → q x ≡ not b)
    → any p (filter q xs) ≡ (any p xs && not b)
any-filter p q b [] h = ground arith
any-filter p q b (x ∷ xs) h = ground (arith, h x, any-filter p q b xs h)

is_same_sound : (t d p u e q : Text) → is_same t d p u e q ≡ true → (u ≡ t) × (d ≡ e) × (p ≡ q)
is_same_sound t d p u e q h = ground (arith, text_beq_iff t u, text_beq_iff d e, text_beq_iff p q)

-- Adding a permission that is there changes nothing.
present :
    (rows : List Grants.TokenGrant) (t d p u e q : Text)
    → permissions_of rows t d p ≡ true
    → is_same t d p u e q ≡ true
    → permissions_of rows u e q ≡ true
present rows t d p u e q h s = let (x, y, z) = is_same_sound t d p u e q s in rw (x, sym y, sym z) h

insert-set :
    (db : Db) (now : ℕ) (rows : List Grants.TokenGrant) (t d p u e q : Text)
    → permissions_of (Grants.grant db now rows t d p).0 u e q
      ≡ changed_set db (permissions_of rows) (grants_at now t d p) u e q
unfolding Grants.grant Grants.insert_grant changed_set
insert-set db now rows t d p u e q = ground (
  arith,
  present rows t d p u e q,
  any-snoc (Grants.is_grant_of u e q) rows
      (record { token_id = t; domain = d; permission = p; created_at = now }),
)

-- A row that grants the second permission is the one revoked if they are the same.
revoked :
    (g : Grants.TokenGrant) (t d p u e q : Text)
    → Grants.is_grant_of u e q g ≡ true
    → Grants.is_grant_of t d p g ≡ is_same t d p u e q
revoked g t d p u e q h =
    let (x, y, z) = is_same_sound g.token_id g.domain g.permission u e q h in
    rw (sym x, y, z, text_beq_sym u t, text_beq_sym e d, text_beq_sym q p) refl

revoke-set :
    (db : Db) (rows : List Grants.TokenGrant) (t d p u e q : Text)
    → permissions_of (Grants.revoke rows t d p).0 u e q
      ≡ changed_set db (permissions_of rows) (revokes t d p) u e q
unfolding Grants.revoke changed_set
revoke-set db rows t d p u e q = ground (
  arith,
  any-filter (Grants.is_grant_of u e q) (λ g. not (Grants.is_grant_of t d p g))
      (is_same t d p u e q) rows (λ g h. ap not (revoked g t d p u e q h)),
)

change-set :
    (db : Db) (rows : List Grants.TokenGrant) (c : Change) (u e q : Text)
    → permissions_of (change db rows c) u e q ≡ changed_set db (permissions_of rows) c u e q
unfolding change
change-set db rows (grants_at now t d p) u e q = insert-set db now rows t d p u e q
change-set db rows (revokes t d p) u e q = revoke-set db rows t d p u e q

-- A change reads of a set only what it asks of it.
changed_set-same :
    (db : Db) (r s : Permissions) (c : Change)
    → ((u e q : Text) → r u e q ≡ s u e q)
    → (u e q : Text) → changed_set db r c u e q ≡ changed_set db s c u e q
unfolding changed_set
changed_set-same db r s (grants_at now t d p) h u e q = rw (h u e q) refl
changed_set-same db r s (revokes t d p) h u e q = rw (h u e q) refl

changed_set_all-same :
    (db : Db) (r s : Permissions) (cs : List Change)
    → ((u e q : Text) → r u e q ≡ s u e q)
    → (u e q : Text) → changed_set_all db r cs u e q ≡ changed_set_all db s cs u e q
unfolding changed_set_all
changed_set_all-same db r s [] h = h
changed_set_all-same db r s (c ∷ cs) h =
    changed_set_all-same db (changed_set db r c) (changed_set db s c) cs
      (changed_set-same db r s c h)

change_all-set :
    (db : Db) (rows : List Grants.TokenGrant) (cs : List Change) (u e q : Text)
    → permissions_of (change_all db rows cs) u e q
      ≡ changed_set_all db (permissions_of rows) cs u e q
unfolding change_all changed_set_all
change_all-set db rows [] u e q = refl
change_all-set db rows (c ∷ cs) u e q =
    change_all-set db (change db rows c) cs u e q
    ∙ changed_set_all-same db (permissions_of (change db rows c))
        (changed_set db (permissions_of rows) c) cs (change-set db rows c) u e q

-- What the set says of a token on a domain, where the question is valid.
abbrev pub answer : Permissions → Text → Text → Text → Result StoreError Bool
answer s t d p =
    if is_certificate_domain d && Grants.is_permission p
    then ok (not (is_blank t) && s t d p)
    else err invalid_argument

-- After any calls of Grant and Revoke on an empty table, HasCertificatePermission gives the answer
-- of the set of permissions that the calls describe: a grant that is valid, for a token and a
-- domain that are there, adds one, a valid revocation takes it away. A question that is not valid
-- is an error, and a blank token has no permission.
pub has-change_all :
    (db : Db) (cs : List Change) (t d p : Text)
    → Grants.has_certificate_permission (change_all db [] cs) t d p
      ≡ answer (changed_set_all db (λ _ _ _. false) cs) t d p
unfolding Grants.has_certificate_permission
has-change_all db cs t d p =
    ap
      (λ b.
        if is_certificate_domain d && Grants.is_permission p
        then ok (not (is_blank t) && b)
        else err invalid_argument)
      (change_all-set db [] cs t d p)

-- Two rows of one primary key.
abbrev pub Differs : Grants.TokenGrant → Grants.TokenGrant → Type 0
Differs g h = Grants.is_grant_of g.token_id g.domain g.permission h ≡ false

none_of :
    (g : Grants.TokenGrant) (rows : List Grants.TokenGrant)
    → any (Grants.is_grant_of g.token_id g.domain g.permission) rows ≡ false
    → All (λ h. Differs h g) rows
none_of g [] h = tt
none_of g (x ∷ xs) h = ground (
  arith,
  none_of g xs,
  text_beq_sym x.token_id g.token_id,
  text_beq_sym x.domain g.domain,
  text_beq_sym x.permission g.permission,
)

abbrev Kept : Grants.Granting (Unit {0}) → Type 0
Kept out = AllPairs Differs out.0

change-Differs :
    (db : Db) (rows : List Grants.TokenGrant) (c : Change)
    → AllPairs Differs rows
    → AllPairs Differs (change db rows c)
unfolding change Grants.grant Grants.insert_grant Grants.revoke
change-Differs db rows (grants_at now t d p) a =
    let g : Grants.TokenGrant = record {
      token_id = t;
      domain = d;
      permission = p;
      created_at = now;
    } in
    if_either Kept (Grants.is_grantable t d p)
      (if_by Kept (any (Grants.is_grant_of t d p) rows) (λ _. a)
        (λ n.
          if_either Kept (is_present db t d) (AllPairs-snoc Differs rows g a (none_of g rows n)) a))
      a
change-Differs db rows (revokes t d p) a =
    if_either Kept (is_certificate_domain d && Grants.is_permission p)
      (AllPairs-filter Differs _ rows a) a

-- No two rows ever have one primary key.
pub change_all-Differs :
    (db : Db) (rows : List Grants.TokenGrant) (cs : List Change)
    → AllPairs Differs rows
    → AllPairs Differs (change_all db rows cs)
unfolding change_all
change_all-Differs db rows [] a = a
change_all-Differs db rows (c ∷ cs) a =
    change_all-Differs db (change db rows c) cs (change-Differs db rows c a)

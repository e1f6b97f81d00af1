-- ===== src/Notifications/Policies.antt =====
-- What is read of the reminder settings after they were changed.
use employee_compliance_saas.Common.{
  ◌+◌, ◌≡◌, refl, ap, ◌∙◌, true, false, ◌&&◌, ◌||◌, some, List, [], ◌∷◌, ◌++◌, map, arith, ◌==◌,
  keep-append, some_is, ==_iff,
}
use employee_compliance_saas.Common.Exec.{Result, ok}
use employee_compliance_saas.Database.Schema.{Uuid, Instant, NotificationPolicyRow, Db}
use employee_compliance_saas.Database.Table.{select, update}
use employee_compliance_saas.Database.Session.{
  Postgres, Session, insert_notification_policy, update_notification_policies,
}
use employee_compliance_saas.Audit.{AuditContext, log}
use employee_compliance_saas.Audit.Write.{frame-log, log_ok}
use employee_compliance_saas.Notifications.{
  NotificationPolicy, UpdateNotificationPolicyDto, customized, policy_or_default, get_or_default,
  next_policy, set_policy, policy_entry, update_policy,
}

module _ (pg : Postgres) (t : Uuid) (clock : Instant) (dto : UpdateNotificationPolicyDto)
    (context : AuditContext) (now : Instant) (db : Db) where
  abbrev pub policies : List NotificationPolicyRow → List NotificationPolicyRow
  policies rows = select (λ p. p.tenant_id) (some t) (λ p. p.tenant_id == t) rows

  abbrev pub next : List NotificationPolicyRow → NotificationPolicyRow
  next found = next_policy (pg.gen_random_uuid db.draws) t now dto (policy_or_default t found)

  -- The row that is returned: the stored one with the changes, or a new one.
  abbrev pub saved : List NotificationPolicyRow → NotificationPolicyRow
  saved [] = next []
  saved (before ∷ rest) = set_policy (next (before ∷ rest)) clock before

  abbrev saved_rows : List NotificationPolicyRow → List NotificationPolicyRow
  saved_rows [] = db.notification_policies ++ next [] ∷ []
  saved_rows (before ∷ rest) =
      update (λ p. p.tenant_id) (some t) (λ p. p.tenant_id == t)
        (set_policy (next (before ∷ rest)) clock) db.notification_policies

  abbrev saved_session : List NotificationPolicyRow → Session
  saved_session found = record {
    db = record db { notification_policies = saved_rows found; draws = db.draws + 1 };
    current_tenant = some t;
    now = now;
  }

  abbrev logged : List NotificationPolicyRow → Session
  logged found = (log pg (policy_entry context found (saved found)) (saved_session found)).1

  no_clash :
      (rows : List NotificationPolicyRow)
      → policies rows ≡ []
      → some_is (λ p. p.id == pg.gen_random_uuid db.draws) rows ≡ false
      → some_is (λ p. p.id == pg.gen_random_uuid db.draws || p.tenant_id == t) rows ≡ false
  no_clash [] e h = refl
  no_clash (x ∷ rows) e h = ground (arith, no_clash rows)

  update_new :
      policies db.notification_policies ≡ []
      → some_is
          (λ p. p.id == pg.gen_random_uuid db.draws || p.tenant_id == t)
          db.notification_policies
        ≡ false
      → some_is (λ x. x.id == t) db.tenants ≡ true
      → update_policy pg t clock dto context now db ≡ (ok (saved []), (logged []).db)
  unfolding update_policy insert_notification_policy
  update_new e h k = rw (e, e, (==_iff t t).1 refl, h, k, e, log_ok)

  update_old :
      (before : NotificationPolicyRow) (rest : List NotificationPolicyRow)
      → policies db.notification_policies ≡ before ∷ rest
      → update_policy pg t clock dto context now db
        ≡ (ok (saved (before ∷ rest)), (logged (before ∷ rest)).db)
  unfolding update_policy update_notification_policies
  update_old before rest e = rw (e, e, e, log_ok, e)

  policies-update :
      (f : NotificationPolicyRow → NotificationPolicyRow) (rows : List NotificationPolicyRow)
      → ((r : NotificationPolicyRow) → (f r).tenant_id ≡ r.tenant_id)
      → policies (update (λ p. p.tenant_id) (some t) (λ p. p.tenant_id == t) f rows)
        ≡ map f (policies rows)
  policies-update f [] h = refl
  policies-update f (x ∷ rows) h = ground (arith, h x, policies-update f rows h)

  policies-append :
      (rows : List NotificationPolicyRow) (row : NotificationPolicyRow)
      → row.tenant_id ≡ t
      → policies rows ≡ []
      → policies (rows ++ row ∷ []) ≡ row ∷ []
  policies-append rows row h e =
      keep-append (λ p. p.tenant_id == t && p.tenant_id == t) rows (row ∷ [])
      ∙ rw e (ground (arith, h))

  policies-logged :
      (found : List NotificationPolicyRow)
      → policies (logged found).db.notification_policies ≡ policies (saved_rows found)
  policies-logged found =
      ap (λ (s : Session). policies s.db.notification_policies)
        (frame-log pg (policy_entry context found (saved found)) (saved_session found))

  read_back :
      (later : Instant) (found : List NotificationPolicyRow) (row : NotificationPolicyRow)
      (rest : List NotificationPolicyRow)
      → policies (saved_rows found) ≡ row ∷ rest
      → get_or_default t later (logged found).db ≡ (ok (customized row), (logged found).db)
  unfolding get_or_default
  read_back later found row rest e = rw (policies-logged found ∙ e)

  -- The settings after the change, as `getOrDefault` shows them.
  abbrev pub settings : NotificationPolicy
  settings = customized (saved (policies db.notification_policies))

  -- A change of the settings returns the stored row with the given fields replaced, or, where the
  -- tenant has none, a new row of the given fields and the defaults; and whoever reads the tenant's
  -- settings afterwards reads exactly what was returned. The conditions: the tenant exists, and, for
  -- a new row, no row of the table has the drawn id.
  pub policy_read_back :
      (later : Instant)
      → some_is (λ x. x.id == t) db.tenants ≡ true
      → some_is (λ p. p.id == pg.gen_random_uuid db.draws) db.notification_policies ≡ false
      → ((update_policy pg t clock dto context now db).0
          ≡ ok (saved (policies db.notification_policies)))
        × ((get_or_default t later (update_policy pg t clock dto context now db).1).0 ≡ ok settings)
  policy_read_back later k h = go (policies db.notification_policies) refl
    where
      go :
          (found : List NotificationPolicyRow)
          → policies db.notification_policies ≡ found
          → ((update_policy pg t clock dto context now db).0 ≡ ok (saved found))
            × ((get_or_default t later (update_policy pg t clock dto context now db).1).0
                ≡ ok (customized (saved found)))
      go [] e = rw (update_new e (no_clash db.notification_policies e h) k) (
        refl,
        ap (λ (r : Result NotificationPolicy × Db). r.0)
            (read_back later [] (next []) []
              (policies-append db.notification_policies (next []) refl e)),
      )
      go (before ∷ rest) e = rw (update_old before rest e) (
        refl,
        ap (λ (r : Result NotificationPolicy × Db). r.0)
            (read_back later (before ∷ rest) (saved (before ∷ rest))
              (map (set_policy (next (before ∷ rest)) clock) rest)
              (policies-update (set_policy (next (before ∷ rest)) clock) db.notification_policies
                  (λ r. refl)
                ∙ ap (map (set_policy (next (before ∷ rest)) clock)) e)),
      )

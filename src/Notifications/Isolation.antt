-- ===== src/Notifications/Isolation.antt =====
-- Tenant isolation of a change of the reminder settings.
use employee_compliance_saas.Common.{◌≡◌, List, [], ◌∷◌}
use employee_compliance_saas.Common.Exec.Keeps.{Keeps}
use employee_compliance_saas.Database.Schema.{Uuid, Instant, Db, NotificationPolicyRow}
use employee_compliance_saas.Database.Session.{Postgres}
use employee_compliance_saas.Database.Isolation.{others, InTenant, tenant_rules, others-transaction}
use employee_compliance_saas.Audit.{AuditContext}
use employee_compliance_saas.Audit.Write.{log-InTenant}
use employee_compliance_saas.Notifications.{
  UpdateNotificationPolicyDto, upsert_over, upsert_notification_policy, update_in, update_policy,
}

module _ {t : Uuid} {o : Db} where
  upsert_over-InTenant :
      (next : NotificationPolicyRow) (clock : Instant) (rows : List NotificationPolicyRow)
      → next.tenant_id ≡ t
      → Keeps (InTenant t o) (upsert_over next clock rows)
  upsert_over-InTenant next clock [] own = search tenant_rules depth 12
  upsert_over-InTenant next clock (row ∷ rest) own = search tenant_rules depth 12

  upsert-InTenant :
      (next : NotificationPolicyRow) (clock : Instant)
      → next.tenant_id ≡ t
      → Keeps (InTenant t o) (upsert_notification_policy next clock)
  unfolding upsert_notification_policy
  upsert-InTenant next clock own = search (tenant_rules, upsert_over-InTenant) depth 12

module _ (pg : Postgres) (t : Uuid) (clock : Instant) (dto : UpdateNotificationPolicyDto)
    (context : AuditContext) (own : context.tenant_id ≡ t) where
  update_in-InTenant : {o : Db} → Keeps (InTenant t o) (update_in pg t clock dto context)
  unfolding update_in
  update_in-InTenant = search (tenant_rules, upsert-InTenant, log-InTenant) depth 14

  pub others-update_policy :
      (now : Instant) (db : Db)
      → others t (update_policy pg t clock dto context now db).1 ≡ others t db
  unfolding update_policy
  others-update_policy now db =
      others-transaction t now (update_in pg t clock dto context) db update_in-InTenant

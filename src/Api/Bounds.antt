-- ===== src/Api/Bounds.antt =====
-- The numbers that the schemas let through.
use employee_compliance_saas.Common.{◌≤◌, none, some, arith}
use employee_compliance_saas.Api.Schemas.{
  Paged, ExpiringFilters, page_number, page_limit, search_schema, list_schema, expiring_schema,
  stats_query_schema, update_employee_schema, update_document_schema,
  update_notification_policy_schema,
}
use employee_compliance_saas.Api.Wire.{Value, Zod, coerced}
use employee_compliance_saas.Api.Yields.{
  Yields, Allows, after, root, field-Yields, object_of-Yields, anything, IsWithin, coerced-Allows,
  defaulting-Allows, AreDays, days-Allows,
}

-- A page number is at least 1, and a page holds 1 to 100 rows.
abbrev pub IsPaged : {Filters : Type 0} → Paged Filters → Type 0
IsPaged p = (1 ≤ p.page) × (1 ≤ p.limit) × (p.limit ≤ 100)

abbrev pub IsExpiringPage : Paged ExpiringFilters → Type 0
IsExpiringPage p = IsPaged p × IsWithin 1 (some 365) p.filters.within_days

module _ (zod : Zod) where
  page_number-Allows : (v : Value) → Allows (IsWithin 1 none) (page_number zod v)
  page_number-Allows =
      defaulting-Allows (IsWithin 1 none) 1 (coerced zod 1 none) (omega arith)
        (coerced-Allows zod 1 none)

  page_limit-Allows : (v : Value) → Allows (IsWithin 1 (some 100)) (page_limit zod v)
  page_limit-Allows =
      defaulting-Allows (IsWithin 1 (some 100)) 20 (coerced zod 1 (some 100)) (omega arith)
        (coerced-Allows zod 1 (some 100))

  search-Yields : (v : Value) → Yields IsPaged (search_schema zod v)
  unfolding search_schema
  search-Yields v = object_of-Yields _ _ v (λ given.
      after _ _ _ _
        (after _ _ _ _
          (after _ _ _ _
            (after _ _ _ _
              (after _ _ _ _
                (after _ _ _ _
                  (root _ _
                    (λ q _ department _ branch _ status _ page hp limit hl. (hp, hl.0, hl.1)))
                  (anything _))
                (anything _))
              (anything _))
            (anything _))
          (field-Yields (IsWithin 1 none) "page" _ given page_number-Allows))
        (field-Yields (IsWithin 1 (some 100)) "limit" _ given page_limit-Allows))

  list-Yields : (v : Value) → Yields IsPaged (list_schema zod v)
  unfolding list_schema
  list-Yields v = object_of-Yields _ _ v (λ given.
      after _ _ _ _
        (after _ _ _ _
          (after _ _ _ _
            (after _ _ _ _ (root _ _ (λ type _ status _ page hp limit hl. (hp, hl.0, hl.1)))
              (anything _))
            (anything _))
          (field-Yields (IsWithin 1 none) "page" _ given page_number-Allows))
        (field-Yields (IsWithin 1 (some 100)) "limit" _ given page_limit-Allows))

  expiring-Yields : (v : Value) → Yields IsExpiringPage (expiring_schema zod v)
  unfolding expiring_schema
  expiring-Yields v = object_of-Yields _ _ v (λ given.
      after _ _ _ _
        (after _ _ _ _
          (after _ _ _ _
            (after _ _ _ _ (root _ _ (λ days hd type _ page hp limit hl. ((hp, hl.0, hl.1), hd))) (
              field-Yields (IsWithin 1 (some 365)) "withinDays" _ given (
                defaulting-Allows _ 30 (coerced zod 1 (some 365)) (omega arith)
                  (coerced-Allows zod 1 (some 365)))))
            (anything _))
          (field-Yields (IsWithin 1 none) "page" _ given page_number-Allows))
        (field-Yields (IsWithin 1 (some 100)) "limit" _ given page_limit-Allows))

  stats-Yields : (v : Value) → Yields (IsWithin 1 (some 720)) (stats_query_schema zod v)
  unfolding stats_query_schema
  stats-Yields v = object_of-Yields _ _ v (λ given. after _ _ _ _ (root _ _ (λ hours h. h)) (
      field-Yields (IsWithin 1 (some 720)) "windowHours" _ given (
        defaulting-Allows _ 24 (coerced zod 1 (some 720)) (omega arith)
          (coerced-Allows zod 1 (some 720)))))

  update_employee-Yields :
      (v : Value) → Yields (λ dto. 1 ≤ dto.version) (update_employee_schema zod v)
  unfolding update_employee_schema
  update_employee-Yields v = object_of-Yields _ _ v (λ given.
      after _ _ _ _
        (after _ _ _ _
          (after _ _ _ _
            (after _ _ _ _
              (after _ _ _ _
                (after _ _ _ _
                  (after _ _ _ _
                    (after _ _ _ _ (root _ _ (λ a _ b _ c _ d _ e _ f _ g _ version h. h))
                      (anything _))
                    (anything _))
                  (anything _))
                (anything _))
              (anything _))
            (anything _))
          (anything _))
        (field-Yields (IsWithin 1 none) "version" _ given (coerced-Allows zod 1 none)))

  update_document-Yields :
      (v : Value) → Yields (λ dto. 1 ≤ dto.version) (update_document_schema zod v)
  unfolding update_document_schema
  update_document-Yields v = object_of-Yields _ _ v (λ given.
      after _ _ _ _
        (after _ _ _ _
          (after _ _ _ _
            (after _ _ _ _
              (after _ _ _ _
                (after _ _ _ _ (root _ _ (λ a _ b _ c _ d _ e _ version h. h)) (anything _))
                (anything _))
              (anything _))
            (anything _))
          (anything _))
        (field-Yields (IsWithin 1 none) "version" _ given (coerced-Allows zod 1 none)))

  policy-Yields :
      (v : Value)
      → Yields (λ dto. AreDays dto.reminder_days_before) (update_notification_policy_schema zod v)
  unfolding update_notification_policy_schema
  policy-Yields v = object_of-Yields _ _ v (λ given.
      after _ _ _ _
        (after _ _ _ _
          (after _ _ _ _
            (after _ _ _ _ (root _ _ (λ days h a _ b _ c _. h))
              (field-Yields AreDays "reminderDaysBefore" _ given days-Allows))
            (anything _))
          (anything _))
        (anything _))

  -- What the schemas accept is in range, whatever value comes in: a page of a list is at least 1 and
  -- holds 1 to 100 rows; a window of expiring documents is 1 to 365 days, and one of statistics 1 to 720
  -- hours; the version of an update is at least 1; and the reminder days, if they are given, are 1 to 10
  -- numbers from 1 to 3650.
  pub schemas-Yields :
      (v : Value)
      → Yields IsPaged (search_schema zod v)
        × Yields IsPaged (list_schema zod v)
        × Yields IsExpiringPage (expiring_schema zod v)
        × Yields (IsWithin 1 (some 720)) (stats_query_schema zod v)
        × Yields (λ dto. 1 ≤ dto.version) (update_employee_schema zod v)
        × Yields (λ dto. 1 ≤ dto.version) (update_document_schema zod v)
        × Yields (λ dto. AreDays dto.reminder_days_before) (update_notification_policy_schema zod v)
  schemas-Yields v = (
    search-Yields v,
    list-Yields v,
    expiring-Yields v,
    stats-Yields v,
    update_employee-Yields v,
    update_document-Yields v,
    policy-Yields v,
  )

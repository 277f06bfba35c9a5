-- ===== src/Admin/Seed/Users.antt =====
-- The users part of web/src/mock/adminMockData.ts, the data that the store begins with.
use guardian_cloud.Prelude.{true, false, none, some, List, [], ◌∷◌}
use guardian_cloud.Admin.Types.Enums.{
  TenantType, RiskLevel, PlanTier, PlanInterval, SubscriptionStatus, UserStatus,
}
use guardian_cloud.Admin.Types.Tenant.{IndividualUser, Subscription}

abbrev pub initial_users : List IndividualUser
initial_users =
    record {
      id = "usr-201";
      name = "Elena Rostova";
      email = "elena.rostova@proton.me";
      avatar_url = none;
      status = UserStatus.active;
      risk_score = 14;
      risk_level = RiskLevel.low;
      security_score = 94;
      plan_tier = PlanTier.personal;
      plan_name = "Guardian Personal";
      device_count = 3;
      subscription_status = SubscriptionStatus.active;
      mfa_enabled = true;
      mfa_method = some "WEBAUTHN";
      last_active_at = "2026-09-06T14:40:00Z";
      created_at = "2025-02-12T11:20:00Z";
    }
    ∷ record {
      id = "usr-202";
      name = "David K. Chen";
      email = "david.chen.security@gmail.com";
      avatar_url = none;
      status = UserStatus.active;
      risk_score = 31;
      risk_level = RiskLevel.low;
      security_score = 86;
      plan_tier = PlanTier.personal;
      plan_name = "Guardian Personal";
      device_count = 2;
      subscription_status = SubscriptionStatus.active;
      mfa_enabled = true;
      mfa_method = some "TOTP";
      last_active_at = "2026-09-06T13:10:00Z";
      created_at = "2025-04-05T09:30:00Z";
    }
    ∷ record {
      id = "usr-203";
      name = "Siddharth Nair";
      email = "sid.nair@icloud.com";
      avatar_url = none;
      status = UserStatus.trial;
      risk_score = 68;
      risk_level = RiskLevel.medium;
      security_score = 62;
      plan_tier = PlanTier.free;
      plan_name = "Guardian Free";
      device_count = 1;
      subscription_status = SubscriptionStatus.trialing;
      mfa_enabled = false;
      mfa_method = none;
      last_active_at = "2026-09-06T10:05:00Z";
      created_at = "2026-08-28T16:00:00Z";
    }
    ∷ record {
      id = "usr-204";
      name = "Zoe Kravitz-Alves";
      email = "zoe.k.alves@outlook.com";
      avatar_url = none;
      status = UserStatus.suspended;
      risk_score = 89;
      risk_level = RiskLevel.critical;
      security_score = 38;
      plan_tier = PlanTier.personal;
      plan_name = "Guardian Personal";
      device_count = 4;
      subscription_status = SubscriptionStatus.past_due;
      mfa_enabled = false;
      mfa_method = none;
      last_active_at = "2026-08-25T14:00:00Z";
      created_at = "2024-10-18T12:00:00Z";
    }
    ∷ record {
      id = "usr-205";
      name = "Mateo Morales";
      email = "m.morales@fastmail.com";
      avatar_url = none;
      status = UserStatus.archived;
      risk_score = 10;
      risk_level = RiskLevel.low;
      security_score = 90;
      plan_tier = PlanTier.free;
      plan_name = "Guardian Free";
      device_count = 0;
      subscription_status = SubscriptionStatus.canceled;
      mfa_enabled = true;
      mfa_method = some "TOTP";
      last_active_at = "2025-11-20T08:00:00Z";
      created_at = "2024-05-10T14:00:00Z";
    }
    ∷ []

abbrev pub initial_subscriptions : List Subscription
initial_subscriptions =
    record {
      id = "sub-301";
      tenant_id = "org-101";
      customer_name = "Acme Defense Technologies";
      customer_email = "s.jenkins@acmedefense.com";
      customer_type = TenantType.organization;
      plan_id = "plan-ent";
      plan_name = "Guardian Enterprise";
      plan_tier = PlanTier.enterprise;
      status = SubscriptionStatus.active;
      seats_allocated = 500;
      seats_used = 420;
      devices_allocated = 800;
      devices_used = 650;
      mrr = 1450000;
      billing_interval = PlanInterval.annual;
      started_at = "2025-01-15T00:00:00Z";
      renews_at = "2027-01-15T00:00:00Z";
    }
    ∷ record {
      id = "sub-302";
      tenant_id = "org-102";
      customer_name = "Cyberdyne Systems Corp";
      customer_email = "mdyson@cyberdyne.io";
      customer_type = TenantType.organization;
      plan_id = "plan-ent";
      plan_name = "Guardian Enterprise";
      plan_tier = PlanTier.enterprise;
      status = SubscriptionStatus.active;
      seats_allocated = 1000;
      seats_used = 890;
      devices_allocated = 1600;
      devices_used = 1420;
      mrr = 2980000;
      billing_interval = PlanInterval.monthly;
      started_at = "2024-11-10T00:00:00Z";
      renews_at = "2026-10-10T00:00:00Z";
    }
    ∷ record {
      id = "sub-303";
      tenant_id = "org-103";
      customer_name = "Stark Industries";
      customer_email = "ppotts@starkindustries.com";
      customer_type = TenantType.organization;
      plan_id = "plan-ent";
      plan_name = "Guardian Enterprise";
      plan_tier = PlanTier.enterprise;
      status = SubscriptionStatus.active;
      seats_allocated = 2500;
      seats_used = 2300;
      devices_allocated = 4000;
      devices_used = 3800;
      mrr = 7500000;
      billing_interval = PlanInterval.annual;
      started_at = "2024-06-20T00:00:00Z";
      renews_at = "2027-06-20T00:00:00Z";
    }
    ∷ record {
      id = "sub-304";
      tenant_id = "org-104";
      customer_name = "Nexus Health Systems";
      customer_email = "evance@nexushealth.org";
      customer_type = TenantType.organization;
      plan_id = "plan-bus-plus";
      plan_name = "Guardian Business Plus";
      plan_tier = PlanTier.business_plus;
      status = SubscriptionStatus.active;
      seats_allocated = 400;
      seats_used = 340;
      devices_allocated = 600;
      devices_used = 510;
      mrr = 680000;
      billing_interval = PlanInterval.monthly;
      started_at = "2025-03-01T00:00:00Z";
      renews_at = "2026-10-01T00:00:00Z";
    }
    ∷ record {
      id = "sub-305";
      tenant_id = "org-105";
      customer_name = "Orbital Media Group";
      customer_email = "liam@orbitalmedia.co";
      customer_type = TenantType.organization;
      plan_id = "plan-bus";
      plan_name = "Guardian Business";
      plan_tier = PlanTier.business;
      status = SubscriptionStatus.trialing;
      seats_allocated = 50;
      seats_used = 45;
      devices_allocated = 80;
      devices_used = 68;
      mrr = 95000;
      billing_interval = PlanInterval.monthly;
      started_at = "2026-08-20T00:00:00Z";
      renews_at = "2026-09-20T00:00:00Z";
    }
    ∷ record {
      id = "sub-306";
      tenant_id = "usr-201";
      customer_name = "Elena Rostova";
      customer_email = "elena.rostova@proton.me";
      customer_type = TenantType.personal;
      plan_id = "plan-pers";
      plan_name = "Guardian Personal";
      plan_tier = PlanTier.personal;
      status = SubscriptionStatus.active;
      seats_allocated = 1;
      seats_used = 1;
      devices_allocated = 5;
      devices_used = 3;
      mrr = 999;
      billing_interval = PlanInterval.monthly;
      started_at = "2025-02-12T00:00:00Z";
      renews_at = "2026-10-12T00:00:00Z";
    }
    ∷ []

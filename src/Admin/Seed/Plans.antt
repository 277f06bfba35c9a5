-- ===== src/Admin/Seed/Plans.antt =====
-- The plans part of web/src/mock/adminMockData.ts, the data that the store begins with.
use guardian_cloud.Prelude.{List, [], ◌∷◌}
use guardian_cloud.Admin.Types.Enums.{TenantType, PlanTier, PlanStatus}
use guardian_cloud.Admin.Types.Tenant.{Plan}

abbrev pub initial_plans : List Plan
initial_plans =
    record {
      id = "plan-free";
      name = "Guardian Free";
      tier = PlanTier.free;
      target_type = TenantType.personal;
      price_monthly = 0;
      price_annual = 0;
      device_limit = 1;
      employee_limit = 1;
      status = PlanStatus.active;
      subscriber_count = 1420;
      features =
          "Single device real-time monitoring" ∷ "Basic malware anomaly detection"
          ∷ "Community threat intelligence feed" ∷ "7-day security event history" ∷ [];
      description = "Essential baseline endpoint security for individual users.";
    }
    ∷ record {
      id = "plan-pers";
      name = "Guardian Personal";
      tier = PlanTier.personal;
      target_type = TenantType.personal;
      price_monthly = 999;
      price_annual = 9900;
      device_limit = 5;
      employee_limit = 1;
      status = PlanStatus.active;
      subscriber_count = 2840;
      features =
          "Up to 5 devices (macOS, Windows, iOS, Android)"
          ∷ "Active biometric / passkey recovery portal" ∷ "Encrypted backup verification"
          ∷ "Real-time network traffic interception" ∷ "30-day security event history" ∷ [];
      description = "Comprehensive personal active defense for technical professionals.";
    }
    ∷ record {
      id = "plan-bus";
      name = "Guardian Business";
      tier = PlanTier.business;
      target_type = TenantType.organization;
      price_monthly = 1800;
      price_annual = 18000;
      device_limit = 150;
      employee_limit = 50;
      status = PlanStatus.active;
      subscriber_count = 312;
      features =
          "Centralized admin dashboard" ∷ "Device grouping and policy templates"
          ∷ "Automated quarantine on critical breach" ∷ "Audit log exporter (JSON/CSV)"
          ∷ "90-day retention" ∷ [];
      description =
          "Purpose-built endpoint posture and fleet governance for fast-growing companies.";
    }
    ∷ record {
      id = "plan-bus-plus";
      name = "Guardian Business Plus";
      tier = PlanTier.business_plus;
      target_type = TenantType.organization;
      price_monthly = 2800;
      price_annual = 28000;
      device_limit = 500;
      employee_limit = 200;
      status = PlanStatus.active;
      subscriber_count = 148;
      features =
          "Everything in Business" ∷ "SAML 2.0 / OIDC SSO & SCIM directory sync"
          ∷ "Real-time SIEM streaming (Splunk, Datadog)"
          ∷ "Automated vulnerability patch coordination" ∷ "1-year retention" ∷ [];
      description = "Advanced compliance standards and federated identity integration.";
    }
    ∷ record {
      id = "plan-ent";
      name = "Guardian Enterprise";
      tier = PlanTier.enterprise;
      target_type = TenantType.organization;
      price_monthly = 4500;
      price_annual = 45000;
      device_limit = 10000;
      employee_limit = 5000;
      status = PlanStatus.active;
      subscriber_count = 64;
      features =
          "Unlimited devices & employee seats" ∷ "Dedicated tenant encryption keys (BYOK)"
          ∷ "24/7 SOC escalation hotline with 15-min SLA" ∷ "Custom behavioral sandbox rules"
          ∷ "7-year tamper-proof immutable audit log" ∷ [];
      description = "Bespoke zero-trust architecture for defense, finance, and global enterprises.";
    }
    ∷ []

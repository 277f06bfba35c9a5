-- ===== src/Admin/Seed/Organizations.antt =====
-- The organizations part of web/src/mock/adminMockData.ts, the data that the store begins with.
use guardian_cloud.Prelude.{none, some, List, [], ◌∷◌}
use guardian_cloud.Admin.Types.Enums.{TenantStatus, RiskLevel, PlanTier, SubscriptionStatus}
use guardian_cloud.Admin.Types.Tenant.{Organization}

abbrev pub initial_organizations : List Organization
initial_organizations =
    record {
      id = "org-101";
      name = "Acme Defense Technologies";
      slug = "acme-defense";
      domain = "acmedefense.com";
      plan_id = "plan-ent";
      plan_name = "Guardian Enterprise";
      plan_tier = PlanTier.enterprise;
      status = TenantStatus.active;
      risk_score = 24;
      risk_level = RiskLevel.low;
      employee_count = 420;
      device_count = 650;
      healthy_device_count = 638;
      open_incidents_count = 1;
      policy_violations_count = 3;
      mrr = 1450000;
      subscription_status = SubscriptionStatus.active;
      owner_name = "Sarah Jenkins";
      owner_email = "s.jenkins@acmedefense.com";
      created_at = "2025-01-15T08:30:00Z";
      last_active_at = "2026-09-06T14:22:00Z";
      logo_url = none;
      industry = some "Defense & Aerospace";
      region = some "us-east-1";
    }
    ∷ record {
      id = "org-102";
      name = "Cyberdyne Systems Corp";
      slug = "cyberdyne";
      domain = "cyberdyne.io";
      plan_id = "plan-ent";
      plan_name = "Guardian Enterprise";
      plan_tier = PlanTier.enterprise;
      status = TenantStatus.active;
      risk_score = 78;
      risk_level = RiskLevel.high;
      employee_count = 890;
      device_count = 1420;
      healthy_device_count = 1290;
      open_incidents_count = 3;
      policy_violations_count = 19;
      mrr = 2980000;
      subscription_status = SubscriptionStatus.active;
      owner_name = "Miles Dyson";
      owner_email = "mdyson@cyberdyne.io";
      created_at = "2024-11-10T10:15:00Z";
      last_active_at = "2026-09-06T14:48:00Z";
      logo_url = none;
      industry = some "Robotics & AI";
      region = some "us-west-2";
    }
    ∷ record {
      id = "org-103";
      name = "Stark Industries";
      slug = "stark-tech";
      domain = "starkindustries.com";
      plan_id = "plan-ent";
      plan_name = "Guardian Enterprise";
      plan_tier = PlanTier.enterprise;
      status = TenantStatus.active;
      risk_score = 18;
      risk_level = RiskLevel.low;
      employee_count = 2300;
      device_count = 3800;
      healthy_device_count = 3770;
      open_incidents_count = 0;
      policy_violations_count = 2;
      mrr = 7500000;
      subscription_status = SubscriptionStatus.active;
      owner_name = "Pepper Potts";
      owner_email = "ppotts@starkindustries.com";
      created_at = "2024-06-20T12:00:00Z";
      last_active_at = "2026-09-06T14:52:00Z";
      logo_url = none;
      industry = some "Advanced Hardware";
      region = some "us-east-1";
    }
    ∷ record {
      id = "org-104";
      name = "Nexus Health Systems";
      slug = "nexus-health";
      domain = "nexushealth.org";
      plan_id = "plan-bus-plus";
      plan_name = "Guardian Business Plus";
      plan_tier = PlanTier.business_plus;
      status = TenantStatus.active;
      risk_score = 64;
      risk_level = RiskLevel.medium;
      employee_count = 340;
      device_count = 510;
      healthy_device_count = 475;
      open_incidents_count = 2;
      policy_violations_count = 8;
      mrr = 680000;
      subscription_status = SubscriptionStatus.active;
      owner_name = "Dr. Evelyn Vance";
      owner_email = "evance@nexushealth.org";
      created_at = "2025-03-01T09:00:00Z";
      last_active_at = "2026-09-06T13:40:00Z";
      logo_url = none;
      industry = some "Healthcare";
      region = some "us-central-1";
    }
    ∷ record {
      id = "org-105";
      name = "Orbital Media Group";
      slug = "orbital-media";
      domain = "orbitalmedia.co";
      plan_id = "plan-bus";
      plan_name = "Guardian Business";
      plan_tier = PlanTier.business;
      status = TenantStatus.trial;
      risk_score = 32;
      risk_level = RiskLevel.low;
      employee_count = 45;
      device_count = 68;
      healthy_device_count = 67;
      open_incidents_count = 0;
      policy_violations_count = 1;
      mrr = 95000;
      subscription_status = SubscriptionStatus.trialing;
      owner_name = "Liam O’Connor";
      owner_email = "liam@orbitalmedia.co";
      created_at = "2026-08-20T15:30:00Z";
      last_active_at = "2026-09-06T11:15:00Z";
      logo_url = none;
      industry = some "Media & Entertainment";
      region = some "eu-west-1";
    }
    ∷ record {
      id = "org-106";
      name = "Vanguard Quantum Labs";
      slug = "vanguard-quantum";
      domain = "vanguardquantum.ai";
      plan_id = "plan-bus-plus";
      plan_name = "Guardian Business Plus";
      plan_tier = PlanTier.business_plus;
      status = TenantStatus.suspended;
      risk_score = 92;
      risk_level = RiskLevel.critical;
      employee_count = 110;
      device_count = 195;
      healthy_device_count = 140;
      open_incidents_count = 4;
      policy_violations_count = 31;
      mrr = 320000;
      subscription_status = SubscriptionStatus.past_due;
      owner_name = "Dr. Aris Thorne";
      owner_email = "athorne@vanguardquantum.ai";
      created_at = "2025-05-18T14:20:00Z";
      last_active_at = "2026-09-01T16:00:00Z";
      logo_url = none;
      industry = some "Quantum Research";
      region = some "eu-central-1";
    }
    ∷ record {
      id = "org-107";
      name = "Helios Financial Corp";
      slug = "helios-financial";
      domain = "heliosfinancial.com";
      plan_id = "plan-ent";
      plan_name = "Guardian Enterprise";
      plan_tier = PlanTier.enterprise;
      status = TenantStatus.active;
      risk_score = 41;
      risk_level = RiskLevel.medium;
      employee_count = 650;
      device_count = 980;
      healthy_device_count = 960;
      open_incidents_count = 1;
      policy_violations_count = 5;
      mrr = 1890000;
      subscription_status = SubscriptionStatus.active;
      owner_name = "Marcus Sterling";
      owner_email = "msterling@heliosfinancial.com";
      created_at = "2024-09-04T11:00:00Z";
      last_active_at = "2026-09-06T14:10:00Z";
      logo_url = none;
      industry = some "Financial Services";
      region = some "us-east-1";
    }
    ∷ record {
      id = "org-108";
      name = "Aether Logistics Corp";
      slug = "aether-logistics";
      domain = "aetherlogistics.global";
      plan_id = "plan-bus";
      plan_name = "Guardian Business";
      plan_tier = PlanTier.business;
      status = TenantStatus.archived;
      risk_score = 12;
      risk_level = RiskLevel.low;
      employee_count = 20;
      device_count = 30;
      healthy_device_count = 30;
      open_incidents_count = 0;
      policy_violations_count = 0;
      mrr = 0;
      subscription_status = SubscriptionStatus.canceled;
      owner_name = "Devon Miller";
      owner_email = "dmiller@aetherlogistics.global";
      created_at = "2024-02-10T10:00:00Z";
      last_active_at = "2025-12-01T09:00:00Z";
      logo_url = none;
      industry = some "Supply Chain";
      region = some "ap-southeast-1";
    }
    ∷ []

-- ===== src/Admin/Seed/Access.antt =====
-- The access part of web/src/mock/adminMockData.ts, the data that the store begins with.
use guardian_cloud.Prelude.{true, false, List, [], ◌∷◌}
use guardian_cloud.Admin.Types.Enums.{AdminRoleType, InvitationStatus, SessionStatus}
use guardian_cloud.Admin.Types.Iam.{GuardianTeam, AdminInvitation, AdminSession}

abbrev pub initial_teams : List GuardianTeam
initial_teams =
    record {
      id = "team-1";
      name = "Platform Engineering";
      description = "Core distributed systems, gateway protocols, and agent runtimes";
      lead_email = "alexander.vance@guardian.internal";
      member_count = 12;
      slack_channel = "#eng-platform";
    }
    ∷ record {
      id = "team-2";
      name = "Global Security Operations (SOC)";
      description = "24/7 threat hunting, forensic telemetry, and incident containment";
      lead_email = "devon.vance@guardian.internal";
      member_count = 8;
      slack_channel = "#soc-war-room";
    }
    ∷ record {
      id = "team-3";
      name = "SRE & Infrastructure";
      description = "Cluster resilience, zero-downtime database migrations, and latency SLAs";
      lead_email = "priya.sharma@guardian.internal";
      member_count = 6;
      slack_channel = "#infra-ops";
    }
    ∷ record {
      id = "team-4";
      name = "Customer Success & Support";
      description = "Enterprise deployments, VIP tenant escalations, and onboarding";
      lead_email = "chloe.lin@guardian.internal";
      member_count = 14;
      slack_channel = "#support-tier2";
    }
    ∷ record {
      id = "team-5";
      name = "Billing & RevOps";
      description = "Subscription accounting, Stripe gateway reconciliation, and enterprise quotas";
      lead_email = "marcus.brody@guardian.internal";
      member_count = 4;
      slack_channel = "#rev-ops";
    }
    ∷ []

abbrev pub initial_invitations : List AdminInvitation
initial_invitations =
    record {
      id = "inv-01";
      email = "elise.montgomery@guardian.internal";
      role = AdminRoleType.security_admin;
      team = "Security";
      invited_by = "Alexander Vance";
      status = InvitationStatus.pending;
      sent_at = "2026-09-04T10:00:00Z";
      expires_at = "2026-09-11T10:00:00Z";
    }
    ∷ record {
      id = "inv-02";
      email = "kai.nakamura@guardian.internal";
      role = AdminRoleType.operations_admin;
      team = "Operations";
      invited_by = "Priya Sharma";
      status = InvitationStatus.pending;
      sent_at = "2026-09-05T14:30:00Z";
      expires_at = "2026-09-12T14:30:00Z";
    }
    ∷ record {
      id = "inv-03";
      email = "tariq.mansoor@guardian.internal";
      role = AdminRoleType.support_admin;
      team = "Support";
      invited_by = "Chloe Lin";
      status = InvitationStatus.expired;
      sent_at = "2026-08-20T09:00:00Z";
      expires_at = "2026-08-27T09:00:00Z";
    }
    ∷ []

abbrev pub initial_sessions : List AdminSession
initial_sessions =
    record {
      id = "ses-1";
      admin_id = "adm-001";
      admin_name = "Alexander Vance";
      admin_email = "alexander.vance@guardian.internal";
      device = "Apple MacBook Pro M3 Max (macOS 15.0)";
      browser = "Chrome 128.0 (ARM64)";
      ip_address = "198.51.100.12";
      location = "San Francisco, CA, USA";
      last_active_at = "2026-09-06T14:55:00Z";
      status = SessionStatus.active;
      is_current = true;
    }
    ∷ record {
      id = "ses-2";
      admin_id = "adm-002";
      admin_name = "Devon Vance";
      admin_email = "devon.vance@guardian.internal";
      device = "Dell XPS 15 9530 (Ubuntu 24.04)";
      browser = "Firefox 130.0";
      ip_address = "203.0.113.45";
      location = "Austin, TX, USA";
      last_active_at = "2026-09-06T14:40:00Z";
      status = SessionStatus.active;
      is_current = false;
    }
    ∷ record {
      id = "ses-3";
      admin_id = "adm-003";
      admin_name = "Priya Sharma";
      admin_email = "priya.sharma@guardian.internal";
      device = "ThinkPad X1 Carbon Gen 11 (Windows 11)";
      browser = "Edge 128.0";
      ip_address = "192.0.2.78";
      location = "Seattle, WA, USA";
      last_active_at = "2026-09-06T14:20:00Z";
      status = SessionStatus.active;
      is_current = false;
    }
    ∷ []

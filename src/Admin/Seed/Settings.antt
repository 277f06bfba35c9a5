-- ===== src/Admin/Seed/Settings.antt =====
-- The settings part of web/src/mock/adminMockData.ts, the data that the store begins with.
use guardian_cloud.Prelude.{true, false, List, [], ◌∷◌, String}
use guardian_cloud.Admin.Types.Security.{Value}
use guardian_cloud.Admin.Types.Platform.{PlatformSettings}

abbrev initial_general : List (String × Value)
initial_general =
    ("portalName", Value.text "Guardian SaaS Control Plane")
    ∷ ("companyLegalName", Value.text "Guardian Security Inc.")
    ∷ ("domainPrimary", Value.text "guardian.security")
    ∷ ("platformUrl", Value.text "https://control.guardian.security")
    ∷ ("logoUrl", Value.text "")
    ∷ ("faviconUrl", Value.text "")
    ∷ ("supportEmail", Value.text "support@guardian.security")
    ∷ ("supportPhone", Value.text "+1 (415) 555-0142")
    ∷ ("incidentAlertEmail", Value.text "soc-escalations@guardian.security")
    ∷ ("statusPageUrl", Value.text "https://status.guardian.security")
    ∷ (
      "legalFooter",
      Value.text "© 2026 Guardian Security Inc. All rights reserved. SOC 2 Type II Certified.",
    )
    ∷ ("termsUrl", Value.text "https://guardian.security/terms")
    ∷ ("privacyUrl", Value.text "https://guardian.security/privacy")
    ∷ ("defaultLocale", Value.text "en-US")
    ∷ ("defaultTimezone", Value.text "UTC")
    ∷ ("dateFormat", Value.text "YYYY-MM-DD")
    ∷ ("businessHours", Value.text "24x7 SOC — Business hours 09:00–18:00 ET")
    ∷ ("dataResidencyRegion", Value.text "us-east-1")
    ∷ ("trialDurationDays", Value.num 14)
    ∷ ("trialAutoConvert", Value.flag false)
    ∷ ("allowTrialAutoEnroll", Value.flag true)
    ∷ ("maintenanceNoticeLeadHours", Value.num 48)
    ∷ ("enforceStrictTenancy", Value.flag true)
    ∷ ("enforceSsoForAdmins", Value.flag false)
    ∷ []

abbrev initial_security : List (String × Value)
initial_security =
    ("mfaEnforcedForAdmins", Value.flag true)
    ∷ ("sessionTimeoutMinutes", Value.num 30)
    ∷ ("ipAllowlistEnabled", Value.flag false)
    ∷ ("allowedIpRanges", Value.text "198.51.100.0/24, 203.0.113.0/24")
    ∷ ("maxFailedLogins", Value.num 5)
    ∷ []

abbrev initial_authentication : List (String × Value)
initial_authentication =
    ("ssoEnabled", Value.flag true)
    ∷ ("samlEntityId", Value.text "https://auth.guardian.security/saml2/metadata")
    ∷ ("samlSsoUrl", Value.text "https://guardian.okta.com/app/guardian_super_admin/sso/saml")
    ∷ ("scimProvisioningEnabled", Value.flag true)
    ∷ []

abbrev initial_notifications : List (String × Value)
initial_notifications =
    ("slackWebhookUrl", Value.text "https://hooks.slack.com/services/T00/B00/GUARDIAN_SUPER")
    ∷ ("pagerDutyKey", Value.text "pd_live_a1b2c3d4e5f6")
    ∷ ("emailDigestFrequency", Value.text "IMMEDIATE")
    ∷ ("notifyOnCriticalIncidents", Value.flag true)
    ∷ []

abbrev initial_storage : List (String × Value)
initial_storage =
    ("evidenceBucket", Value.text "guardian-telemetry-vault-worm")
    ∷ ("encryptionAlgorithm", Value.text "AES-256-GCM-KMS-BYOK")
    ∷ ("evidenceRegion", Value.text "us-east-1")
    ∷ ("redundancyMode", Value.text "GEO_REDUNDANT")
    ∷ []

abbrev initial_retention : List (String × Value)
initial_retention =
    ("auditRetentionDays", Value.num 2555)
    ∷ ("securityEventRetentionDays", Value.num 365)
    ∷ ("telemetryRetentionDays", Value.num 90)
    ∷ ("purgeArchivedTenantsDays", Value.num 180)
    ∷ []

abbrev initial_integrations : List (String × Value)
initial_integrations =
    ("splunkExportEnabled", Value.flag true)
    ∷ ("datadogApiKey", Value.text "dd_api_9941829031")
    ∷ ("crowdstrikeIntelSync", Value.flag true)
    ∷ ("sentinelWorkspaceId", Value.text "azure-ws-8819230")
    ∷ []

abbrev initial_defaults : List (String × Value)
initial_defaults =
    ("defaultDeviceLimit", Value.num 50)
    ∷ ("defaultEmployeeLimit", Value.num 25)
    ∷ ("defaultPasswordPolicy", Value.text "STRICT")
    ∷ ("defaultAutoQuarantineRiskScore", Value.num 80)
    ∷ []

abbrev pub initial_platform_settings : PlatformSettings
initial_platform_settings = record {
  general = initial_general;
  security = initial_security;
  authentication = initial_authentication;
  notifications = initial_notifications;
  storage = initial_storage;
  retention = initial_retention;
  integrations = initial_integrations;
  defaults = initial_defaults;
}

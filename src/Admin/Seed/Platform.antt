-- ===== src/Admin/Seed/Platform.antt =====
-- The platform part of web/src/mock/adminMockData.ts, the data that the store begins with.
use guardian_cloud.Prelude.{true, false, none, List, [], ◌∷◌}
use guardian_cloud.Admin.Types.Enums.{
  DevicePlatform, ServiceStatus, ReleaseStatus, FlagEnvironment, WindowStatus, ImpactLevel,
}
use guardian_cloud.Admin.Types.Platform.{
  ServiceHealth, AgentRelease, FeatureFlag, MaintenanceWindow,
}

abbrev pub initial_services_health : List ServiceHealth
initial_services_health =
    record {
      id = "srv-1";
      name = "Guardian Edge API Gateway";
      category = "Networking";
      status = ServiceStatus.healthy;
      latency_ms = 14;
      uptime_percent = 9999;
      last_checked_at = "2026-09-06T14:55:00Z";
      region = "Global Anycast";
      notes = none;
    }
    ∷ record {
      id = "srv-2";
      name = "Primary PostgreSQL Cluster (HA)";
      category = "Database";
      status = ServiceStatus.healthy;
      latency_ms = 4;
      uptime_percent = 9998;
      last_checked_at = "2026-09-06T14:55:00Z";
      region = "us-east-1";
      notes = none;
    }
    ∷ record {
      id = "srv-3";
      name = "Redis Cache & Session Hub";
      category = "Memory Store";
      status = ServiceStatus.healthy;
      latency_ms = 1;
      uptime_percent = 10000;
      last_checked_at = "2026-09-06T14:55:00Z";
      region = "us-east-1";
      notes = none;
    }
    ∷ record {
      id = "srv-4";
      name = "Kafka Event Ingestion Bus";
      category = "Pipeline";
      status = ServiceStatus.healthy;
      latency_ms = 8;
      uptime_percent = 9995;
      last_checked_at = "2026-09-06T14:55:00Z";
      region = "us-east-1";
      notes = none;
    }
    ∷ record {
      id = "srv-5";
      name = "Agent mTLS Gateway Ring";
      category = "Gateway";
      status = ServiceStatus.healthy;
      latency_ms = 19;
      uptime_percent = 9999;
      last_checked_at = "2026-09-06T14:55:00Z";
      region = "Global";
      notes = none;
    }
    ∷ record {
      id = "srv-6";
      name = "Notification & Pager Relay";
      category = "Alerting";
      status = ServiceStatus.healthy;
      latency_ms = 28;
      uptime_percent = 9992;
      last_checked_at = "2026-09-06T14:55:00Z";
      region = "us-east-1";
      notes = none;
    }
    ∷ record {
      id = "srv-7";
      name = "Immutable Forensic S3 Storage";
      category = "Storage";
      status = ServiceStatus.healthy;
      latency_ms = 32;
      uptime_percent = 10000;
      last_checked_at = "2026-09-06T14:55:00Z";
      region = "us-east-1 (WORM)";
      notes = none;
    }
    ∷ []

abbrev pub initial_agent_releases : List AgentRelease
initial_agent_releases =
    record {
      id = "rel-1";
      version = "v2.4.1";
      platform = DevicePlatform.macos;
      release_date = "2026-08-28T00:00:00Z";
      status = ReleaseStatus.active;
      adoption_rate = 7840;
      is_min_supported = false;
      checksum_sha256 = "e3b0c44298fc1c149afbf4c8996fb92427ae41e4649b934ca495991b7852b855";
      release_notes =
          "Fixed kernel extension memory leak on macOS Sequoia and improved eBPF telemetry compression.";
    }
    ∷ record {
      id = "rel-2";
      version = "v2.4.1";
      platform = DevicePlatform.windows;
      release_date = "2026-08-29T00:00:00Z";
      status = ReleaseStatus.active;
      adoption_rate = 7120;
      is_min_supported = false;
      checksum_sha256 = "a1b2c3d4e5f60718293a4b5c6d7e8f90123456789abcdef0123456789abcdef0";
      release_notes =
          "Introduced early-boot ELAM antimalware inspection and improved LSASS handle filtering.";
    }
    ∷ record {
      id = "rel-3";
      version = "v2.4.0";
      platform = DevicePlatform.linux;
      release_date = "2026-08-10T00:00:00Z";
      status = ReleaseStatus.active;
      adoption_rate = 8500;
      is_min_supported = true;
      checksum_sha256 = "99887766554433221100aabbccddeeff99887766554433221100aabbccddeeff";
      release_notes =
          "Added eBPF LSM hook support for Linux kernels 6.5+ and container namespace detection.";
    }
    ∷ record {
      id = "rel-4";
      version = "v2.1.0";
      platform = DevicePlatform.windows;
      release_date = "2025-06-01T00:00:00Z";
      status = ReleaseStatus.deprecated;
      adoption_rate = 480;
      is_min_supported = false;
      checksum_sha256 = "11223344556677889900aabbccddeeff11223344556677889900aabbccddeeff";
      release_notes =
          "Legacy v2.1 client with outdated TLS 1.2 root certificates. Sunset announced for Q4 2026.";
    }
    ∷ []

abbrev pub initial_feature_flags : List FeatureFlag
initial_feature_flags =
    record {
      id = "ff-1";
      key = "ebpf-active-quarantine";
      name = "Autonomous eBPF Quarantine";
      description =
          "Enables kernel-level autonomous network drop when high-confidence C2 beacon signatures match.";
      environment = FlagEnvironment.production;
      enabled = true;
      rollout_percentage = 100;
      updated_at = "2026-09-06T14:15:00Z";
      updated_by = "Alexander Vance";
    }
    ∷ record {
      id = "ff-2";
      key = "ai-triage-copilot";
      name = "SOC AI Telemetry Copilot";
      description =
          "Runs offline LLM inference on normalized process trees to synthesize incident threat narratives.";
      environment = FlagEnvironment.all;
      enabled = true;
      rollout_percentage = 50;
      updated_at = "2026-09-05T11:00:00Z";
      updated_by = "Devon Vance";
    }
    ∷ record {
      id = "ff-3";
      key = "strict-byod-compliance-enforcement";
      name = "Strict BYOD Micro-Isolation";
      description =
          "Revokes corporate network access for unmanaged BYOD endpoints failing minimum disk encryption.";
      environment = FlagEnvironment.production;
      enabled = false;
      rollout_percentage = 0;
      updated_at = "2026-09-02T16:00:00Z";
      updated_by = "Alexander Vance";
    }
    ∷ record {
      id = "ff-4";
      key = "fips-140-3-crypto-mode";
      name = "FIPS 140-3 Cryptographic Engine";
      description =
          "Forces all agent mTLS connections and database records into strict FIPS validated crypto mode.";
      environment = FlagEnvironment.production;
      enabled = true;
      rollout_percentage = 100;
      updated_at = "2026-08-20T09:00:00Z";
      updated_by = "Alexander Vance";
    }
    ∷ []

abbrev pub initial_maintenance_windows : List MaintenanceWindow
initial_maintenance_windows =
    record {
      id = "maint-101";
      title = "PostgreSQL Partitioning & Zero-Downtime Index Rebuild";
      status = WindowStatus.scheduled;
      start_at = "2026-09-12T02:00:00Z";
      end_at = "2026-09-12T04:30:00Z";
      affected_services = "Primary PostgreSQL Cluster (HA)" ∷ "Audit Ingestion Engine" ∷ [];
      impact_level = ImpactLevel.low;
      created_by = "Priya Sharma";
    }
    ∷ record {
      id = "maint-102";
      title = "Edge Anycast TLS Certificate Rotation";
      status = WindowStatus.completed;
      start_at = "2026-09-01T01:00:00Z";
      end_at = "2026-09-01T01:25:00Z";
      affected_services = "Guardian Edge API Gateway" ∷ [];
      impact_level = ImpactLevel.none;
      created_by = "Priya Sharma";
    }
    ∷ []

-- ===== src/Agent/Tls/Texts.antt =====
-- The texts that the agent writes to the machine: the default configurations and the units of systemd.
use cluster_api_provider_bri.Prelude.{String, ◌<>◌, List, [], ◌∷◌, unlines, join}

-- `generateDefaultKubeletConfig`
unfoldable pub default_kubelet_config : String
default_kubelet_config = unlines (
    "apiVersion: kubelet.config.k8s.io/v1beta1" ∷ "kind: KubeletConfiguration" ∷ "authentication:"
    ∷ "  anonymous:" ∷ "    enabled: false" ∷ "  webhook:" ∷ "    cacheTTL: 2m0s"
    ∷ "    enabled: true" ∷ "  x509:" ∷ "    clientCAFile: /etc/kubernetes/pki/ca.crt"
    ∷ "authorization:" ∷ "  mode: Webhook" ∷ "  webhook:" ∷ "    cacheAuthorizedTTL: 5m0s"
    ∷ "    cacheUnauthorizedTTL: 30s" ∷ "cgroupDriver: systemd" ∷ "clusterDNS:" ∷ "- 169.254.20.10"
    ∷ "clusterDomain: cluster.local" ∷ "containerLogMaxFiles: 5" ∷ "containerLogMaxSize: 10Mi"
    ∷ "evictionHard:" ∷ "  imagefs.available: 15%" ∷ "  memory.available: 100Mi"
    ∷ "  nodefs.available: 10%" ∷ "  nodefs.inodesFree: 5%"
    ∷ "evictionPressureTransitionPeriod: 5m0s" ∷ "fileCheckFrequency: 40s"
    ∷ "healthzBindAddress: 127.0.0.1" ∷ "healthzPort: 10248" ∷ "imageGCHighThresholdPercent: 85"
    ∷ "imageGCLowThresholdPercent: 80" ∷ "logging:" ∷ "  verbosity: 0"
    ∷ "nodeStatusUpdateFrequency: 10s" ∷ "rotateCertificates: true" ∷ "runtimeRequestTimeout: 2m0s"
    ∷ "staticPodPath: /etc/kubernetes/manifests" ∷ "streamingConnectionIdleTimeout: 4h0m0s"
    ∷ "syncFrequency: 1m0s" ∷ "volumeStatsAggPeriod: 1m0s" ∷ [])

-- `generateDefaultKubeProxyConfig`
unfoldable pub default_kube_proxy_config : String
default_kube_proxy_config =
    unlines (
      "apiVersion: kubeproxy.config.k8s.io/v1alpha1" ∷ "kind: KubeProxyConfiguration"
      ∷ "bindAddress: 0.0.0.0" ∷ "clientConnection:" ∷ "  acceptContentTypes: \"\"" ∷ "  burst: 10"
      ∷ "  contentType: application/vnd.kubernetes.protobuf"
      ∷ "  kubeconfig: /etc/kubernetes/kube-proxy.kubeconfig" ∷ "  qps: 5" ∷ "clusterCIDR: \"\""
      ∷ "configSyncPeriod: 15m0s" ∷ "conntrack:" ∷ "  maxPerCore: 32768" ∷ "  min: 131072"
      ∷ "  tcpCloseWaitTimeout: 1h0m0s" ∷ "  tcpEstablishedTimeout: 24h0m0s"
      ∷ "enableProfiling: false" ∷ "healthzBindAddress: 0.0.0.0:10256" ∷ "hostnameOverride: \"\""
      ∷ "iptables:" ∷ "  masqueradeAll: false" ∷ "  masqueradeBit: 14" ∷ "  minSyncPeriod: 0s"
      ∷ "  syncPeriod: 30s" ∷ "ipvs:" ∷ "  excludeCIDRs: null" ∷ "  minSyncPeriod: 0s"
      ∷ "  scheduler: \"\"" ∷ "  strictARP: false" ∷ "  syncPeriod: 30s" ∷ "  tcpFinTimeout: 0s"
      ∷ "  tcpTimeout: 0s" ∷ "  udpTimeout: 0s" ∷ "metricsBindAddress: 127.0.0.1:10249"
      ∷ "mode: \"\"" ∷ "nodePortAddresses: null" ∷ "oomScoreAdj: -999" ∷ "portRange: \"\""
      ∷ "clusterDomain: \"cluster.local\"" ∷ [])
    <> " "

-- The unit of kube-proxy, the same text in both functions that write it.
unfoldable pub kube_proxy_service : String
kube_proxy_service = unlines (
    "[Unit]" ∷ "Description=kube-proxy: The Kubernetes Network Proxy"
    ∷ "Documentation=https://kubernetes.io/docs/home/" ∷ "Wants=network-online.target"
    ∷ "After=network-online.target" ∷ "" ∷ "[Service]"
    ∷ "ExecStart=/usr/local/bin/kube-proxy --config=/var/lib/kube-proxy/kube-proxy-config.yaml"
    ∷ "Restart=always" ∷ "StartLimitInterval=0" ∷ "RestartSec=10" ∷ "" ∷ "[Install]"
    ∷ "WantedBy=multi-user.target" ∷ [])

-- The unit of the kubelet, with its arguments.
unfoldable pub kubelet_service : List String → String
kubelet_service args = unlines (
    "[Unit]"
    ∷ "Description=kubelet: The Kubernetes Node Agent"
    ∷ "Documentation=https://kubernetes.io/docs/home/"
    ∷ "Wants=network-online.target"
    ∷ "After=network-online.target"
    ∷ "After=containerd.service"
    ∷ "Wants=containerd.service"
    ∷ ""
    ∷ "[Service]"
    ∷ ("ExecStart=/usr/local/bin/kubelet " <> join " " args)
    ∷ "Restart=always"
    ∷ "StartLimitInterval=0"
    ∷ "RestartSec=10"
    ∷ "# Mount cgroup to support cgroupfs driver (common in binary installs)"
    ∷ "ExecStartPre=-/bin/mount -o remount,rw '/sys/fs/cgroup'"
    ∷ "# Ensure working directory exists"
    ∷ "WorkingDirectory=/var/lib/kubelet"
    ∷ "# Resource accounting"
    ∷ "CPUAccounting=true"
    ∷ "MemoryAccounting=true"
    ∷ ""
    ∷ "[Install]"
    ∷ "WantedBy=multi-user.target"
    ∷ [])

-- The kubeconfig of kube-proxy, which holds a certificate and its key.
unfoldable pub kube_proxy_kubeconfig : String → String → String → String → String
kube_proxy_kubeconfig ca server cert key = unlines (
    "apiVersion: v1"
    ∷ "kind: Config"
    ∷ "clusters:"
    ∷ "- cluster:"
    ∷ ("    certificate-authority-data: " <> ca)
    ∷ ("    server: " <> server)
    ∷ "  name: default"
    ∷ "contexts:"
    ∷ "- context:"
    ∷ "    cluster: default"
    ∷ "    user: default"
    ∷ "  name: default"
    ∷ "current-context: default"
    ∷ "users:"
    ∷ "- name: default"
    ∷ "  user:"
    ∷ ("    client-certificate-data: " <> cert)
    ∷ ("    client-key-data: " <> key)
    ∷ [])

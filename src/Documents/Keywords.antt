-- ===== src/Documents/Keywords.antt =====
-- The words by which a field is found, and those that are counted (services/document_quality.py,
-- `FIELD_KEYWORDS`, `TECHNICAL_TERMS`, `EMPTY_PHRASES`).
use agentic_learning_platfor.Base.{String, List, [], ◌∷◌, Assoc}

abbrev pub field_keywords : Assoc (List String)
field_keywords =
    ("answer", "答案" ∷ "回答" ∷ "解法" ∷ "参考答案" ∷ [])
    ∷ ("api", "API" ∷ "接口" ∷ "endpoint" ∷ "路由" ∷ [])
    ∷ ("architecture", "架构" ∷ "架构图" ∷ "分层" ∷ "系统设计" ∷ "拓扑" ∷ [])
    ∷ ("background", "背景" ∷ "场景" ∷ "问题" ∷ "现状" ∷ "痛点" ∷ [])
    ∷ ("basic_info", "姓名" ∷ "电话" ∷ "邮箱" ∷ "GitHub" ∷ "基本信息" ∷ [])
    ∷ ("bonus_items", "加分" ∷ "优先" ∷ "bonus" ∷ "nice to have" ∷ [])
    ∷ ("call_chain", "调用链" ∷ "链路" ∷ "调用关系" ∷ "时序" ∷ [])
    ∷ ("company", "公司" ∷ "企业" ∷ "厂" ∷ "雇主" ∷ [])
    ∷ ("core_flow", "核心流程" ∷ "业务流程" ∷ "流程" ∷ "主链路" ∷ [])
    ∷ ("data_flow", "数据流" ∷ "数据链路" ∷ "输入" ∷ "输出" ∷ [])
    ∷ ("date", "日期" ∷ "时间" ∷ "面试时间" ∷ [])
    ∷ ("difficulty", "难度" ∷ "简单" ∷ "中等" ∷ "困难" ∷ [])
    ∷ ("education", "教育" ∷ "学历" ∷ "学校" ∷ "本科" ∷ "硕士" ∷ [])
    ∷ ("examples", "示例" ∷ "例子" ∷ "case" ∷ "demo" ∷ [])
    ∷ ("experience_requirements", "经验" ∷ "年限" ∷ "年以上" ∷ "工作经验" ∷ [])
    ∷ ("feedback", "反馈" ∷ "评价" ∷ "面试官" ∷ "复盘" ∷ [])
    ∷ ("frequency", "频率" ∷ "出现次数" ∷ "高频" ∷ "低频" ∷ [])
    ∷ ("goal", "目标" ∷ "目的" ∷ "期望" ∷ "指标" ∷ [])
    ∷ ("hard_skills", "技能" ∷ "技术栈" ∷ "熟悉" ∷ "掌握" ∷ "精通" ∷ [])
    ∷ ("implementation_plan", "实施计划" ∷ "排期" ∷ "里程碑" ∷ "落地" ∷ [])
    ∷ ("key_implementation", "关键实现" ∷ "核心实现" ∷ "源码" ∷ "算法" ∷ [])
    ∷ ("keyword_weights", "权重" ∷ "关键词" ∷ "优先级" ∷ [])
    ∷ ("knowledge_points", "知识点" ∷ "考点" ∷ "原理" ∷ "概念" ∷ [])
    ∷ ("mastery_level", "掌握程度" ∷ "未学" ∷ "理解" ∷ "会讲" ∷ "实战" ∷ [])
    ∷ ("metrics", "%" ∷ "％" ∷ "QPS" ∷ "TPS" ∷ "耗时" ∷ "延迟" ∷ "成本" ∷ "提升" ∷ "下降" ∷ "准确率" ∷ [])
    ∷ ("module_structure", "目录结构" ∷ "模块" ∷ "包结构" ∷ "组件" ∷ [])
    ∷ ("next_actions", "下一步" ∷ "行动" ∷ "计划" ∷ "待办" ∷ [])
    ∷ ("overview", "简介" ∷ "概述" ∷ "项目目标" ∷ "项目介绍" ∷ [])
    ∷ ("personal_contribution", "我负责" ∷ "本人负责" ∷ "个人贡献" ∷ "主导" ∷ "独立" ∷ "我实现" ∷ [])
    ∷ ("pitfalls", "易错" ∷ "坑" ∷ "注意" ∷ "反例" ∷ [])
    ∷ ("practice", "练习" ∷ "实践" ∷ "实验" ∷ "作业" ∷ [])
    ∷ ("principle", "原理" ∷ "机制" ∷ "为什么" ∷ "底层" ∷ [])
    ∷ ("projects", "项目" ∷ "项目经历" ∷ "系统" ∷ "平台" ∷ [])
    ∷ ("question", "问题" ∷ "题目" ∷ "Q:" ∷ "问：" ∷ [])
    ∷ ("questions", "问题" ∷ "题目" ∷ "考题" ∷ "八股" ∷ [])
    ∷ ("reflection", "反思" ∷ "总结" ∷ "复盘" ∷ "改进" ∷ [])
    ∷ ("result", "结果" ∷ "效果" ∷ "收益" ∷ "产出" ∷ "上线" ∷ "通过" ∷ "拒绝" ∷ "offer" ∷ [])
    ∷ ("review_points", "复习" ∷ "回顾" ∷ "待复习" ∷ "遗忘" ∷ [])
    ∷ ("risks", "风险" ∷ "缺陷" ∷ "限制" ∷ "隐患" ∷ [])
    ∷ ("role", "岗位" ∷ "职位" ∷ "方向" ∷ "角色" ∷ [])
    ∷ ("round", "轮次" ∷ "一面" ∷ "二面" ∷ "三面" ∷ "HR" ∷ [])
    ∷ ("scenario", "场景" ∷ "应用" ∷ "适用" ∷ "使用场景" ∷ [])
    ∷ ("seniority", "初级" ∷ "中级" ∷ "高级" ∷ "专家" ∷ "级别" ∷ [])
    ∷ ("skills", "技能" ∷ "技术栈" ∷ "Java" ∷ "Python" ∷ "Redis" ∷ "MySQL" ∷ [])
    ∷ ("soft_skills", "沟通" ∷ "协作" ∷ "抗压" ∷ "owner" ∷ "推动" ∷ [])
    ∷ ("solution", "方案" ∷ "解决方案" ∷ "设计" ∷ "实现" ∷ [])
    ∷ ("startup", "启动" ∷ "运行" ∷ "安装" ∷ "部署" ∷ "README" ∷ [])
    ∷ ("stage", "阶段" ∷ "轮次" ∷ "流程" ∷ "状态" ∷ [])
    ∷ ("summary", "总结" ∷ "小结" ∷ "结论" ∷ "理解" ∷ [])
    ∷ ("target_role", "目标岗位" ∷ "求职方向" ∷ "目标角色" ∷ [])
    ∷ ("tech_stack", "技术栈" ∷ "框架" ∷ "数据库" ∷ "中间件" ∷ "Redis" ∷ "MySQL" ∷ "Spring" ∷ [])
    ∷ ("technical_details", "技术细节" ∷ "实现细节" ∷ "源码" ∷ "算法" ∷ "SQL" ∷ "缓存" ∷ "并发" ∷ [])
    ∷ ("title", "标题" ∷ "岗位名称" ∷ "职位名称" ∷ [])
    ∷ ("topic", "主题" ∷ "标题" ∷ "Topic" ∷ "知识点" ∷ [])
    ∷ ("tradeoffs", "取舍" ∷ "为什么" ∷ "替代方案" ∷ "对比" ∷ "不选" ∷ [])
    ∷ ("usage", "使用" ∷ "应用" ∷ "落地" ∷ "怎么用" ∷ [])
    ∷ ("weaknesses", "薄弱" ∷ "不足" ∷ "不会" ∷ "失败原因" ∷ [])
    ∷ ("work_experience", "工作经历" ∷ "实习" ∷ "任职" ∷ "公司" ∷ [])
    ∷ []

abbrev pub technical_terms : List String
technical_terms =
    "Java" ∷ "Python" ∷ "Go" ∷ "TypeScript" ∷ "React" ∷ "Vue" ∷ "Spring" ∷ "Django" ∷ "FastAPI"
    ∷ "MySQL" ∷ "PostgreSQL" ∷ "Redis" ∷ "MongoDB" ∷ "Kafka" ∷ "RabbitMQ" ∷ "Docker" ∷ "Kubernetes"
    ∷ "Qdrant" ∷ "LangChain" ∷ "RAG" ∷ "embedding" ∷ "向量" ∷ "索引" ∷ "缓存" ∷ "队列" ∷ "并发" ∷ "事务" ∷ "限流"
    ∷ "分库分表" ∷ "一致性" ∷ "微服务" ∷ []

abbrev pub empty_phrases : List String
empty_phrases = "参与" ∷ "负责相关" ∷ "熟悉" ∷ "了解" ∷ "优化了系统" ∷ "提升用户体验" ∷ []
